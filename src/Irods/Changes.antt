-- ===== src/Irods/Changes.antt =====
-- The calls of irods.go that make, remove and rename entries. `out` is modelled as in Irods/Attrs.
pub mod Laws
use irodsfs.Base.{ℕ, Bool, true, false, not, ltb, Option, none, some, Text, if◌then◌else◌}
use irodsfs.Types.{Errno, ok, enoent, enotempty, eremoteio}
use irodsfs.Env.{
  External, Settings, Sys, Entry, Reply, failed, replied, M, Exit, returned, running, ◌>>=◌, ◌>>◌,
  return, return_if, ask, call, or_return, body,
}
use irodsfs.Irods.Access.{irods_get_acl}
use irodsfs.Irods.Attrs.{Attr, not_found_or_remote, set_attr_out_for_irods_entry}

module _ (E : External) where
  unfoldable pub irods_rmdir : Text → Sys E → Errno × Sys E
  irods_rmdir path = body do
    reply ← ask (E.stat path)
    entry ← or_return reply (not_found_or_remote E)
    return_if (not entry.is_dir) eremoteio
    reply ← ask (E.remove_dir entry.path)
    elim reply [
      | failed err ↦ return (
          if E.is_file_not_found_error err
          then enoent
          else if E.is_collection_not_empty_error err
          then enotempty
          else eremoteio)
      | replied _ ↦ return ok
    ]

  unfoldable pub irods_unlink : Text → Sys E → Errno × Sys E
  irods_unlink path = body do
    reply ← ask (E.stat path)
    entry ← or_return reply (not_found_or_remote E)
    return_if entry.is_dir eremoteio
    reply ← ask (E.remove_file entry.path)
    elim reply [ failed err ↦ return (not_found_or_remote E err) | replied _ ↦ return ok ]

  -- The part of `IRODSRename` that deletes a file at the destination first.
  unfoldable pub delete_dest : Text → Sys E → Exit Errno (Unit {0}) × Sys E
  delete_dest dest_path = do
    reply ← ask (E.stat dest_path)
    elim reply [
      | failed err ↦ return_if (not (E.is_file_not_found_error err)) eremoteio
      | replied dest_entry ↦
          if ltb 0 dest_entry.id
          then (if not dest_entry.is_dir
              then (do reply ← ask (E.remove_file dest_path); or_return reply (λ err. eremoteio))
              else return_if false ok)
          else return_if false ok
    ]

  unfoldable pub irods_rename : Text → Text → Sys E → Errno × Sys E
  unfolding delete_dest
  irods_rename src_path dest_path = body do
    reply ← ask (E.stat src_path)
    src_entry ← or_return reply (not_found_or_remote E)
    (if src_entry.is_dir
        then (do
          reply ← ask (E.rename_dir_to_dir src_path dest_path)
          elim reply [ failed err ↦ return eremoteio | replied _ ↦ return ok ])
        else (do
          delete_dest dest_path
          reply ← ask (E.rename_file_to_file src_path dest_path)
          elim reply [ failed err ↦ return eremoteio | replied _ ↦ return ok ]))

module _ (E : External) (fs : Settings) where
  -- The results are the new directory's ID, the error and the attribute.
  unfoldable pub irods_mkdir : Text → Sys E → (ℕ × Errno × Option Attr) × Sys E
  irods_mkdir path = body do
    reply ← ask (E.make_dir path)
    or_return reply (λ err. (0, eremoteio, none))
    reply ← ask (E.stat path)
    entry ← or_return reply (λ err. (0, eremoteio, none))
    mode ← call (irods_get_acl E fs entry false)
    return_if (not entry.is_dir) (0, eremoteio, none)
    attr ← call (set_attr_out_for_irods_entry E fs entry mode)
    return (entry.id, ok, some attr)
