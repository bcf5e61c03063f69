-- ===== src/Dir/Attrs.antt =====
-- dir.go: `Getattr`, `Setattr`, `Lookup`, `Opendir`, `Readdir` and `Fsync` of `Dir`.
use irodsfs.Base.{true, Option, none, some, List, [], ◌∷◌, ◌++◌, Text, same, if◌then◌else◌}
use irodsfs.Types.{is_ok, Errno, ok, enoent, eremoteio, econnaborted}
use irodsfs.Env.{
  External, Settings, Sys, Node, dir_node, file_node, ◌>>=◌, ◌>>◌, return, ask, call, read,
  or_return, nil_or, unless_terminated, body, get_next_operation_id,
}
use irodsfs.VPath.{
  ensure_vpath_entry_is_irods_dir, ensure_vpath_entry_is_irods_entry, closest_entry,
}
use irodsfs.Irods.Attrs.{
  Attr, DirEntry, s_ifdir, s_ifreg, get_default_dir_entries, is_transitive_connection_error,
  set_attr_out_for_virtual_dir_entry, set_attr_out_for_dummy, irods_getattr, irods_lookup,
  irods_opendir, irods_readdir,
}

module _ (E : External) (fs : Settings) where
  unfoldable pub getattr : Text → Sys E → (Errno × Option Attr) × Sys E
  getattr path = body do
    unless_terminated (econnaborted, none)
    _ ← call get_next_operation_id
    vpath_entry ← closest_entry E path (eremoteio, none)
    (if E.is_virtual_dir_entry vpath_entry
        then (if same (E.vpath_path vpath_entry) path
            then (do
              attr ←
                  call (set_attr_out_for_virtual_dir_entry E fs (E.virtual_dir_entry vpath_entry))
              return (ok, some attr))
            else return (enoent, none))
        else (do
          err ← call (ensure_vpath_entry_is_irods_dir E vpath_entry)
          elim err [
            | some err ↦
                if is_transitive_connection_error E err
                then (do
                  attr ← call (set_attr_out_for_dummy E fs path true)
                  return (ok, some attr))
                else return (eremoteio, none)
            | none ↦ do
              irods_path ← or_return (E.get_irods_path vpath_entry path) (λ err. (eremoteio, none))
              result ← call (irods_getattr E fs irods_path (E.vpath_read_only vpath_entry))
              return result
          ]))

  -- It changes nothing, so that clients such as git do not fail.
  unfoldable pub setattr : Sys E → Errno × Sys E
  setattr = body do unless_terminated econnaborted; return ok

  unfoldable pub lookup : Text → Text → Sys E → (Option Node × Errno × Option Attr) × Sys E
  lookup path name =
      let target_path = E.join_path path name in
      body do
        unless_terminated (none, econnaborted, none)
        _ ← call get_next_operation_id
        vpath_entry ← closest_entry E target_path (none, eremoteio, none)
        (if E.is_virtual_dir_entry vpath_entry
            then (if same (E.vpath_path vpath_entry) target_path
                then (do
                  let entry = E.virtual_dir_entry vpath_entry
                  inode_id ← ask (E.inode_for_vpath_entry_id entry.id)
                  attr ← call (set_attr_out_for_virtual_dir_entry E fs entry)
                  return (some (dir_node inode_id target_path), ok, some attr))
                else return (none, enoent, none))
            else (do
              err ← call (ensure_vpath_entry_is_irods_entry E vpath_entry)
              nil_or err (λ err. (none, eremoteio, none))
              irods_path ←
                  or_return (E.get_irods_path vpath_entry target_path)
                    (λ err. (none, eremoteio, none))
              (entry_id, entry_dir, errno, out) ←
                  call (irods_lookup E fs irods_path (E.vpath_read_only vpath_entry))
              (if is_ok errno
                  then (do
                    inode_id ← ask (E.inode_for_irods_entry_id entry_id)
                    return (
                      some ((if entry_dir then dir_node else file_node) inode_id target_path),
                      ok,
                      out,
                    ))
                  else return (none, errno, out))))

  unfoldable pub opendir : Text → Sys E → Errno × Sys E
  opendir path = body do
    unless_terminated econnaborted
    _ ← call get_next_operation_id
    vpath_entry ← closest_entry E path eremoteio
    (if E.is_virtual_dir_entry vpath_entry
        then return (if same (E.vpath_path vpath_entry) path then ok else enoent)
        else (do
          err ← call (ensure_vpath_entry_is_irods_dir E vpath_entry)
          nil_or err (λ err. if is_transitive_connection_error E err then ok else eremoteio)
          irods_path ← or_return (E.get_irods_path vpath_entry path) (λ err. eremoteio)
          errno ← call (irods_opendir E fs irods_path)
          return errno))

  -- The body of the loop over the entries of a virtual directory, and the loop.
  unfoldable pub virtual_dir_entry : E.VPathEntry → Sys E → DirEntry × Sys E
  virtual_dir_entry entry = body do
    (if E.is_virtual_dir_entry entry
        then (do
          let virtual = E.virtual_dir_entry entry
          inode_id ← ask (E.inode_for_vpath_entry_id virtual.id)
          return (record { ino = inode_id; mode = s_ifdir; name = virtual.name }))
        else (do
          irods ← read (λ s. E.irods_entry entry s.world)
          inode_id ← ask (E.inode_for_irods_entry_id irods.id)
          return (record {
            ino = inode_id;
            mode = if irods.is_dir then s_ifdir else s_ifreg;
            name = E.get_file_name (E.vpath_path entry);
          })))

  unfoldable pub virtual_dir_entries : List (E.VPathEntry) → Sys E → List DirEntry × Sys E
  virtual_dir_entries [] s = ([], s)
  virtual_dir_entries (entry ∷ entries) s =
      let (dir_entry, s') = virtual_dir_entry entry s in
      let (rest, s'') = virtual_dir_entries entries s' in (dir_entry ∷ rest, s'')

  -- A `nil` stream is `none`. With an error of the server, the stream still has `.` and `..`.
  unfoldable pub readdir : Text → Sys E → (Option (List DirEntry) × Errno) × Sys E
  readdir path = body do
    unless_terminated (none, econnaborted)
    _ ← call get_next_operation_id
    vpath_entry ← closest_entry E path (none, eremoteio)
    (if E.is_virtual_dir_entry vpath_entry
        then (if same (E.vpath_path vpath_entry) path
            then (do
              entries ← read (λ s. E.virtual_dir_entries vpath_entry s.world)
              l ← call (virtual_dir_entries entries)
              return (some (get_default_dir_entries ++ l), ok))
            else return (none, enoent))
        else (do
          err ← call (ensure_vpath_entry_is_irods_dir E vpath_entry)
          nil_or err (λ err.
              if is_transitive_connection_error E err
              then (some get_default_dir_entries, ok)
              else (none, eremoteio))
          irods_path ← or_return (E.get_irods_path vpath_entry path) (λ err. (none, eremoteio))
          (irods_dir_entries, errno) ← call (irods_readdir E fs irods_path)
          return (some (get_default_dir_entries ++ irods_dir_entries), errno)))

  unfoldable pub fsync : Sys E → Errno × Sys E
  fsync = body do unless_terminated econnaborted; _ ← call get_next_operation_id; return ok
