-- ===== src/File/Xattrs.antt =====
-- file.go: the extended attributes of `File`.
pub mod Laws
use irodsfs.Base.{ℕ, Bool, true, false, List, Text}
use irodsfs.Types.{Errno, eacces, einval, enodata, eremoteio, econnaborted}
use irodsfs.Env.{
  External, Settings, Sys, ◌>>=◌, ◌>>◌, return, return_if, call, unless_terminated, body,
  get_next_operation_id,
}
use irodsfs.Irods.Xattrs.{
  is_unhandled_attr, irods_listxattr, irods_getxattr, irods_setxattr, irods_removexattr,
}
use irodsfs.File.Paths.{mapped_path}

module _ (E : External) (fs : Settings) where
  unfoldable pub listxattr : Text → List ℕ → Sys E → (ℕ × Errno × List ℕ) × Sys E
  listxattr path dest = body do
    unless_terminated (0, econnaborted, dest)
    _ ← call get_next_operation_id
    (vpath_entry, irods_path) ← mapped_path E path (0, eremoteio, dest)
    result ← call (irods_listxattr E irods_path dest)
    return result

  unfoldable pub getxattr : Text → Text → List ℕ → Sys E → (ℕ × Errno × List ℕ) × Sys E
  getxattr path attr dest = body do
    unless_terminated (0, econnaborted, dest)
    return_if (is_unhandled_attr attr) (0, enodata, dest)
    _ ← call get_next_operation_id
    (vpath_entry, irods_path) ← mapped_path E path (0, eremoteio, dest)
    result ← call (irods_getxattr E irods_path attr dest)
    return result

  unfoldable pub setxattr : Text → Text → Text → Sys E → Errno × Sys E
  setxattr path attr value = body do
    unless_terminated econnaborted
    _ ← call get_next_operation_id
    return_if fs.no_set_xattr eacces
    return_if (is_unhandled_attr attr) einval
    (vpath_entry, irods_path) ← mapped_path E path eremoteio
    errno ← call (irods_setxattr E irods_path attr value)
    return errno

  unfoldable pub removexattr : Text → Text → Sys E → Errno × Sys E
  removexattr path attr = body do
    unless_terminated econnaborted
    _ ← call get_next_operation_id
    (vpath_entry, irods_path) ← mapped_path E path eremoteio
    errno ← call (irods_removexattr E irods_path attr)
    return errno
