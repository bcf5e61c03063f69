-- ===== src/File/LockRequests.antt =====
-- file.go: `Getlk`, `Setlk` and `Setlkw` of `File`, on a file handle. Another kind of handle, for which
-- the source follows a nil pointer in its error message, is left out.
use irodsfs.Base.{Option, none, List, Text}
use irodsfs.Types.{Errno, econnaborted, FileHandle}
use irodsfs.Env.{
  External, Settings, Sys, Cell, ◌>>=◌, ◌>>◌, return, call, unless_terminated, body,
  get_next_operation_id,
}
use irodsfs.Handle.LockRequests.{FileLock, get_local_lock, set_local_lock, set_local_lock_w}

module _ (E : External) (fs : Settings) where
  unfoldable pub getlk :
      List Text
      → FileLock
      → FileHandle
      → Cell E
      → Sys E
      → ((Errno × Option FileLock) × Cell E) × Sys E
  getlk order lk handle cell = body do
    unless_terminated ((econnaborted, none), cell)
    _ ← call get_next_operation_id
    result ← call (get_local_lock E fs order lk handle cell)
    return result

  unfoldable pub setlk :
      List Text → FileLock → FileHandle → Cell E → Sys E → (Errno × Cell E) × Sys E
  setlk order lk handle cell = body do
    unless_terminated (econnaborted, cell)
    _ ← call get_next_operation_id
    result ← call (set_local_lock E fs order lk handle cell)
    return result

  unfoldable pub setlkw :
      List Text → FileLock → FileHandle → Cell E → Sys E → (Errno × Cell E) × Sys E
  setlkw order lk handle cell = body do
    unless_terminated (econnaborted, cell)
    _ ← call get_next_operation_id
    result ← call (set_local_lock_w E fs order lk handle cell)
    return result
