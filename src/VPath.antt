-- ===== src/VPath.antt =====
-- vpath.go: what an entry of the path mapping must be before a handler uses it.
use irodsfs.Base.{Bool, true, false, ◌||◌, not, Option, none, some, Text, same, if◌then◌else◌}
use irodsfs.Env.{
  External, Sys, failed, replied, M, ◌>>=◌, ◌>>◌, return, return_if, ask, call, read, nil_or,
  some_or, body,
}

module _ (E : External) where
  unfoldable pub ensure_vpath_entry_is_irods_entry : E.VPathEntry → Sys E → Option (E.Err) × Sys E
  ensure_vpath_entry_is_irods_entry vpath_entry = body do
    return_if (not (E.is_irods_entry vpath_entry)) (some E.errorf)
    update ← read (λ s. E.require_irods_entry_update vpath_entry s.world)
    (if update
        then (do
          reply ← ask (E.update_irods_entry vpath_entry)
          elim reply [ failed err ↦ return (some err) | replied _ ↦ return none ])
        else return none)

  unfoldable pub ensure_vpath_entry_is_irods_dir : E.VPathEntry → Sys E → Option (E.Err) × Sys E
  ensure_vpath_entry_is_irods_dir vpath_entry = body do
    err ← call (ensure_vpath_entry_is_irods_entry vpath_entry)
    nil_or err some
    entry ← read (λ s. E.irods_entry vpath_entry s.world)
    return (if not entry.is_dir then some E.errorf else none)

  unfoldable pub is_vpath_entry_unmodifiable : E.VPathEntry → Text → Bool
  is_vpath_entry_unmodifiable vpath_entry target_path =
      if same (E.vpath_path vpath_entry) target_path
      then true
      else if E.vpath_read_only vpath_entry || E.is_virtual_dir_entry vpath_entry
      then true
      else false

  -- `GetClosestEntry`, with the handlers' `if vpathEntry == nil { return r }`.
  abbrev pub closest_entry : {R : Type 0} → Text → R → M E R (E.VPathEntry)
  closest_entry path r = do
    vpath_entry ← read (λ s. E.get_closest_entry path s.world)
    some_or vpath_entry r
