-- ===== src/Dir/Changes.antt =====
-- dir.go: `Rmdir`, `Unlink`, `Mkdir` and `Create` of `Dir`.
pub mod Laws
use irodsfs.Base.{
  ℕ, Bool, true, false, not, ◌||◌, Option, none, some, List, [], ◌∷◌, ◌++◌, Text, same,
  if◌then◌else◌,
}
use irodsfs.Base.Dict.{insert}
use irodsfs.Types.{Errno, ok, eperm, enoent, eacces, enodata, eremoteio, econnaborted, FileHandle}
use irodsfs.HandleMap.{add}
use irodsfs.Env.{
  External, Settings, Sys, Cell, Node, dir_node, file_node, Entry, VirtualDir, Reply, failed,
  replied, M, Exit, returned, running, ◌>>=◌, ◌>>◌, return, return_if, ask, call, read, or_return,
  nil_or, some_or, unless_terminated, body, get_next_operation_id,
}
use irodsfs.VPath.{
  ensure_vpath_entry_is_irods_dir, ensure_vpath_entry_is_irods_entry, is_vpath_entry_unmodifiable,
  closest_entry,
}
use irodsfs.Irods.Attrs.{Attr}
use irodsfs.Irods.Changes.{irods_rmdir, irods_unlink, irods_mkdir}
use irodsfs.Irods.Opens.{irods_create}

module _ (E : External) (fs : Settings) where
  -- What the four handlers do until they have the path on the server: the mapping's entry must exist
  -- and be modifiable, and its collection is looked up again where that is due.
  abbrev pub modifiable_path : {R : Type 0} → Text → (Errno → R) → M E R Text
  modifiable_path target_path r = do
    unless_terminated (r econnaborted)
    _ ← call get_next_operation_id
    vpath_entry ← closest_entry E target_path (r eremoteio)
    return_if (is_vpath_entry_unmodifiable E vpath_entry target_path) (r eperm)
    err ← call (ensure_vpath_entry_is_irods_dir E vpath_entry)
    nil_or err (λ err. r eremoteio)
    or_return (E.get_irods_path vpath_entry target_path) (λ err. r eremoteio)

  unfoldable pub rmdir : Text → Text → Sys E → Errno × Sys E
  rmdir path name = body do
    irods_path ← modifiable_path (E.join_path path name) (λ errno. errno)
    errno ← call (irods_rmdir E irods_path)
    return errno

  unfoldable pub unlink : Text → Text → Sys E → Errno × Sys E
  unlink path name = body do
    irods_path ← modifiable_path (E.join_path path name) (λ errno. errno)
    errno ← call (irods_unlink E irods_path)
    return errno

  unfoldable pub mkdir : Text → Text → Sys E → (Option Node × Errno × Option Attr) × Sys E
  mkdir path name =
      let target_path = E.join_path path name in
      body do
        irods_path ← modifiable_path target_path (λ errno. (none, errno, none))
        (entry_id, errno, out) ← call (irods_mkdir E fs irods_path)
        elim errno [
          | ok ↦ do
            inode_id ← ask (E.inode_for_irods_entry_id entry_id)
            return (some (dir_node inode_id target_path), ok, out)
          | errno ↦ return (none, errno, out)
        ]

  -- `SetFile` and `Add`: the handle's cell is stored under its ID.
  abbrev pub register : FileHandle → Cell E → Node → Sys E → Unit {0} × Sys E
  register handle cell sub_file s = (
    tt,
    record s {
      cells = insert handle.id (record cell { file = some sub_file }) s.cells;
      file_handle_map = add s.file_handle_map handle;
    },
  )

  -- The results are the node, the handle, the flags for FUSE, the error and the attribute. When
  -- `IRODSCreate` returns no error, it returns a handle.
  unfoldable pub create :
      Text → Text → ℕ → Sys E → (Option Node × Option FileHandle × ℕ × Errno × Option Attr) × Sys E
  create path name flags =
      let target_path = E.join_path path name in
      body do
        irods_path ← modifiable_path target_path (λ errno. (none, none, 0, errno, none))
        (entry_id, file_handle, errno, out) ← call (irods_create E fs irods_path flags)
        elim errno [
          | ok ↦ do
            inode_id ← ask (E.inode_for_irods_entry_id entry_id)
            (handle, cell) ← some_or file_handle (none, none, 0, ok, out)
            call (register handle cell (file_node inode_id target_path))
            return (some (file_node inode_id target_path), some handle, 0, ok, out)
          | errno ↦ return (none, none, 0, errno, out)
        ]
