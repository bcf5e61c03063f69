-- ===== src/Handle/Nodes.antt =====
-- filehandle.go: the methods of `FileHandle` that go through its file node: `Getattr`, `Setattr`,
-- `Getlk`, `Setlk` and `Setlkw`. The answer is `none` where the handle has no file, whose pointer the
-- source would follow.
use irodsfs.Base.{ℕ, Option, none, some, List, Text, if◌then◌else◌}
use irodsfs.Types.{is_ok, Errno, ok, eremoteio, econnaborted, FileHandle}
use irodsfs.Env.{
  External, Settings, Sys, Cell, Node, dir_node, file_node, ◌>>=◌, ◌>>◌, return, call, some_or,
  nil_or, unless_terminated, body, get_next_operation_id,
}
use irodsfs.Irods.Attrs.{Attr}
use irodsfs.Handle.LockRequests.{FileLock}
use irodsfs.Handle.Transfers.{init_lazy, truncate}
use irodsfs.File.Attrs
use irodsfs.File.LockRequests

abbrev pub node_path : Node → Text
node_path (dir_node inode_id path) = path
node_path (file_node inode_id path) = path

module _ (E : External) (fs : Settings) where
  unfoldable pub getattr :
      FileHandle → Cell E → Sys E → (Option (Errno × Option Attr) × Cell E) × Sys E
  getattr handle cell = body do
    unless_terminated (some (econnaborted, none), cell)
    _ ← call get_next_operation_id
    file ← some_or cell.file (none, cell)
    result ← call (Attrs.getattr E fs (node_path file))
    return (some result, cell)

  unfoldable pub setattr :
      Option ℕ → FileHandle → Cell E → Sys E → (Option (Errno × Option ℕ) × Cell E) × Sys E
  setattr in_size handle cell = body do
    unless_terminated (some (econnaborted, none), cell)
    (err, cell1) ← call (init_lazy E fs handle cell)
    nil_or err (λ err. (some (eremoteio, none), cell1))
    _ ← call get_next_operation_id
    elim in_size [
      | some size ↦ do
        (errno, cell2) ← call (truncate E fs size handle cell1)
        return (some (if is_ok errno then (ok, some size) else (errno, none)), cell2)
      | none ↦ do
        file ← some_or cell1.file (none, cell1)
        result ← call (Attrs.setattr E fs (node_path file) none)
        return (some result, cell1)
    ]

  unfoldable pub getlk :
      List Text
      → FileLock
      → FileHandle
      → Cell E
      → Sys E
      → (Option (Errno × Option FileLock) × Cell E) × Sys E
  getlk order lk handle cell = body do
    unless_terminated (some (econnaborted, none), cell)
    _ ← call get_next_operation_id
    file ← some_or cell.file (none, cell)
    (result, cell') ← call (LockRequests.getlk E fs order lk handle cell)
    return (some result, cell')

  unfoldable pub setlk :
      List Text → FileLock → FileHandle → Cell E → Sys E → (Option Errno × Cell E) × Sys E
  setlk order lk handle cell = body do
    unless_terminated (some econnaborted, cell)
    _ ← call get_next_operation_id
    file ← some_or cell.file (none, cell)
    (errno, cell') ← call (LockRequests.setlk E fs order lk handle cell)
    return (some errno, cell')

  unfoldable pub setlkw :
      List Text → FileLock → FileHandle → Cell E → Sys E → (Option Errno × Cell E) × Sys E
  setlkw order lk handle cell = body do
    unless_terminated (some econnaborted, cell)
    file ← some_or cell.file (none, cell)
    (errno, cell') ← call (LockRequests.setlkw E fs order lk handle cell)
    return (some errno, cell')
