-- ===== src/Dir/Renames/Paths.antt =====
-- `Rename` of dir.go up to the server: the paths on the server, and the open handles until then.
use irodsfs.Base.{◌≡◌, ◌⊎◌, inl, inr, arith, some, Text, Option-cases}
use irodsfs.Types.{Errno, eperm, eremoteio}
use irodsfs.Env.{External, Settings, Sys, returned, running, replied}
use irodsfs.VPath.{ensure_vpath_entry_is_irods_entry}
use irodsfs.Irods.Changes.{irods_rename, delete_dest}
use irodsfs.Dir.Renames.{rename_paths}

module _ (E : External) (fs : Settings) where
  abbrev pub SameHandles : Sys E → Sys E → Type 0
  SameHandles s s' =
      (s'.file_handle_map ≡ s.file_handle_map)
      × (s'.cells ≡ s.cells)
      × (s'.terminated ≡ s.terminated)

  ensure-SameHandles :
      (v : E.VPathEntry) (s : Sys E) → SameHandles s (ensure_vpath_entry_is_irods_entry E v s).1
  unfolding ensure_vpath_entry_is_irods_entry
  ensure-SameHandles v s = ground arith

  pub irods_rename-SameHandles :
      (src dest : Text) (s : Sys E) → SameHandles s (irods_rename E src dest s).1
  unfolding irods_rename delete_dest
  irods_rename-SameHandles src dest s = ground arith

  pub rename_paths-SameHandles :
      {R : Type 0} (src dest : Text) (r : Errno → R) (s : Sys E)
      → SameHandles s (rename_paths E fs src dest r s).1
        × ((x : R)
            → (rename_paths E fs src dest r s).0 ≡ returned x
            → (x ≡ r eremoteio) ⊎ (x ≡ r eperm))
  unfolding rename_paths
  rename_paths-SameHandles src dest r s = elim (Option-cases (E.get_closest_entry src s.world)) [
    | inl n ↦ (ground (arith, n), λ x e. ground (arith, n, e))
    | inr (v, n) ↦ elim (Option-cases (E.get_closest_entry dest s.world)) [
      | inl m ↦ (ground (arith, n, m), λ x e. ground (arith, n, m, e))
      | inr (w, m) ↦
          let s1 = (ensure_vpath_entry_is_irods_entry E v s).1 in
          let k = ensure-SameHandles v s in
          let l = ensure-SameHandles w s1 in
          (ground (arith, n, m, k, l), λ x e. ground (arith, n, m, e))
    ]
  ]

  -- The paths on the server of a source and a destination: of each, in the entry closest to it.
  abbrev pub ServerPaths : Text → Text → Sys E → Text → Text → Type 0
  ServerPaths src_path dest_path s src dest =
      (v : E.VPathEntry) × (E.get_closest_entry src_path s.world ≡ some v)
      × (E.get_irods_path v src_path ≡ replied src)
      × (w : E.VPathEntry) × (E.get_closest_entry dest_path s.world ≡ some w)
      × (E.get_irods_path w dest_path ≡ replied dest)

  pub rename_paths-ServerPaths :
      {R : Type 0} (src_path dest_path src dest : Text) (r : Errno → R) (s : Sys E)
      → (rename_paths E fs src_path dest_path r s).0 ≡ running (src, dest)
      → ServerPaths src_path dest_path s src dest
  unfolding rename_paths
  rename_paths-ServerPaths src_path dest_path src dest r s e =
      elim (Option-cases (E.get_closest_entry src_path s.world)) [
        | inl n ↦ absurd (ground (arith, n, e))
        | inr (v, n) ↦ elim (Option-cases (E.get_closest_entry dest_path s.world)) [
          | inl m ↦ absurd (ground (arith, n, m, e))
          | inr (w, m) ↦ (v, n, ground (arith, n, m, e), w, m, ground (arith, n, m, e))
        ]
      ]
