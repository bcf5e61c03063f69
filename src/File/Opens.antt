-- ===== src/File/Opens.antt =====
-- file.go: `Open` of `File`.
pub mod Laws
use irodsfs.Base.{ℕ, Bool, true, false, not, Option, none, some, Text, ◌&&◌}
use irodsfs.Types.{
  Errno, ok, eperm, eremoteio, econnaborted, is_ok, FileHandle, FileOpenMode, read_only,
}
use irodsfs.Env.{
  External, Settings, Sys, file_node, ◌>>=◌, ◌>>◌, return, return_if, call, or_return, nil_or,
  some_or, unless_terminated, body, get_next_operation_id,
}
use irodsfs.VPath.{ensure_vpath_entry_is_irods_entry, closest_entry}
use irodsfs.Irods.Access.{irods_get_open_flags}
use irodsfs.Irods.Opens.{irods_open_lazy}
use irodsfs.Dir.Changes.{register}

-- `openMode == FileOpenModeReadOnly`
abbrev pub is_mode_read_only : FileOpenMode → Bool
is_mode_read_only mode = elim mode [ read_only ↦ true | _ ↦ false ]

module _ (E : External) (fs : Settings) where
  -- On the node's inode and path. The results are the handle, the flags for FUSE and the error. When
  -- `IRODSOpenLazy` returns no error, it returns a handle.
  unfoldable pub open_file : ℕ → Text → ℕ → Sys E → (Option FileHandle × ℕ × Errno) × Sys E
  open_file inode_id path flags = body do
    unless_terminated (none, 0, econnaborted)
    _ ← call get_next_operation_id
    vpath_entry ← closest_entry E path (none, 0, eremoteio)
    return_if (E.is_virtual_dir_entry vpath_entry) (none, 0, eperm)
    return_if
        (E.vpath_read_only vpath_entry && not (is_mode_read_only (irods_get_open_flags flags)))
        (none, 0, eperm)
    err ← call (ensure_vpath_entry_is_irods_entry E vpath_entry)
    nil_or err (λ err. (none, 0, eremoteio))
    irods_path ← or_return (E.get_irods_path vpath_entry path) (λ err. (none, 0, eremoteio))
    (file_handle, errno) ← call (irods_open_lazy E fs irods_path flags)
    return_if (not (is_ok errno)) (none, 0, errno)
    (handle, cell) ← some_or file_handle (none, 0, ok)
    call (register E fs handle cell (file_node inode_id path))
    return (some handle, 0, ok)
