-- ===== src/Dir/Xattrs.antt =====
-- dir.go: the extended attributes of `Dir`.
pub mod Laws
use irodsfs.Base.{
  ℕ, Bool, true, false, not, ◌||◌, Option, none, some, List, [], ◌∷◌, ◌++◌, Text, same,
  if◌then◌else◌,
}
use irodsfs.Base.Dict.{insert}
use irodsfs.Types.{Errno, ok, eperm, enoent, eacces, enodata, eremoteio, econnaborted, FileHandle}
use irodsfs.HandleMap.{add}
use irodsfs.Env.{
  External, Settings, Sys, Cell, Node, dir_node, file_node, Entry, VirtualDir, Reply, failed,
  replied, M, Exit, returned, running, ◌>>=◌, ◌>>◌, return, return_if, ask, call, read, or_return,
  nil_or, some_or, unless_terminated, body, get_next_operation_id,
}
use irodsfs.VPath.{
  ensure_vpath_entry_is_irods_dir, ensure_vpath_entry_is_irods_entry, is_vpath_entry_unmodifiable,
  closest_entry,
}
use irodsfs.Irods.Xattrs.{
  is_unhandled_attr, irods_listxattr, irods_getxattr, irods_setxattr, irods_removexattr,
}

module _ (E : External) (fs : Settings) where
  unfoldable pub listxattr : Text → List ℕ → Sys E → (ℕ × Errno × List ℕ) × Sys E
  listxattr path dest = body do
    unless_terminated (0, econnaborted, dest)
    _ ← call get_next_operation_id
    vpath_entry ← closest_entry E path (0, eremoteio, dest)
    return_if (E.is_virtual_dir_entry vpath_entry) (0, ok, dest)
    err ← call (ensure_vpath_entry_is_irods_dir E vpath_entry)
    nil_or err (λ err. (0, eremoteio, dest))
    irods_path ← or_return (E.get_irods_path vpath_entry path) (λ err. (0, eremoteio, dest))
    result ← call (irods_listxattr E irods_path dest)
    return result

  unfoldable pub getxattr : Text → Text → List ℕ → Sys E → (ℕ × Errno × List ℕ) × Sys E
  getxattr path attr dest = body do
    unless_terminated (0, econnaborted, dest)
    return_if (is_unhandled_attr attr) (0, enodata, dest)
    _ ← call get_next_operation_id
    vpath_entry ← closest_entry E path (0, eremoteio, dest)
    return_if (E.is_virtual_dir_entry vpath_entry) (0, enodata, dest)
    err ← call (ensure_vpath_entry_is_irods_dir E vpath_entry)
    nil_or err (λ err. (0, eremoteio, dest))
    irods_path ← or_return (E.get_irods_path vpath_entry path) (λ err. (0, eremoteio, dest))
    result ← call (irods_getxattr E irods_path attr dest)
    return result

  unfoldable pub setxattr : Text → Text → Text → Sys E → Errno × Sys E
  setxattr path attr value = body do
    unless_terminated econnaborted
    _ ← call get_next_operation_id
    return_if fs.no_set_xattr eacces
    return_if (is_unhandled_attr attr) eacces
    vpath_entry ← closest_entry E path eremoteio
    return_if (E.is_virtual_dir_entry vpath_entry) eacces
    err ← call (ensure_vpath_entry_is_irods_dir E vpath_entry)
    nil_or err (λ err. eremoteio)
    irods_path ← or_return (E.get_irods_path vpath_entry path) (λ err. eremoteio)
    errno ← call (irods_setxattr E irods_path attr value)
    return errno

  unfoldable pub removexattr : Text → Text → Sys E → Errno × Sys E
  removexattr path attr = body do
    unless_terminated econnaborted
    _ ← call get_next_operation_id
    vpath_entry ← closest_entry E path eremoteio
    return_if (E.is_virtual_dir_entry vpath_entry) eacces
    err ← call (ensure_vpath_entry_is_irods_dir E vpath_entry)
    nil_or err (λ err. eremoteio)
    irods_path ← or_return (E.get_irods_path vpath_entry path) (λ err. eremoteio)
    errno ← call (irods_removexattr E irods_path attr)
    return errno
