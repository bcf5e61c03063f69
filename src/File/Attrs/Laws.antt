-- ===== src/File/Attrs/Laws.antt =====
-- What `Truncate` of file.go answers, and which open handle it truncates.
use irodsfs.Base.{
  ◌≡◌, ◌≢◌, ◌⊎◌, inl, inr, ℕ, true, false, arith, some, none, List, [], ◌∷◌, ◌++◌, Text,
  Option-cases, Bool-cases, All,
}
use irodsfs.Base.Dict.{lookup}
use irodsfs.Types.{Errno, ok, enoent, eremoteio, FileHandle}
use irodsfs.Env.{
  External, Settings, Sys, Cell, Entry, Reply-cases, Exit-cases, returned, get_next_operation_id,
}
use irodsfs.VPath.{ensure_vpath_entry_is_irods_entry}
use irodsfs.HandleMap.{list_by_path}
use irodsfs.Irods.Attrs.{irods_stat}
use irodsfs.Handle.{on_handle}
use irodsfs.Handle.Transfers
use irodsfs.Handle.Transfers.{init_lazy}
use irodsfs.Handle.Transfers.Laws.{SameMap, init_lazy-SameMap}
use irodsfs.File.Paths.{mapped_path}
use irodsfs.File.Attrs.{first_writable, truncate_entry, truncate}

module _ (E : External) (fs : Settings) where
  -- The handle is the first of the list that can be written to.
  pub first_writable_lem :
      (l : List FileHandle) (h : FileHandle)
      → first_writable E fs l ≡ some h
      → (before : List FileHandle) × (after : List FileHandle) × (l ≡ before ++ h ∷ after)
        × (E.is_write h.open_mode ≡ true)
        × All (λ g. E.is_write g.open_mode ≡ false) before
  unfolding first_writable
  first_writable_lem [] h e = cc
  first_writable_lem (g ∷ l) h e = elim (Bool-cases (E.is_write g.open_mode)) [
    | inl w ↦ ([], l, ground (arith, e, w), ground (arith, e, w), tt)
    | inr w ↦
        let (before, after, p, q, r) = first_writable_lem l h (rw w at e) in
        (g ∷ before, after, ground (arith, p), q, (w, r))
  ]

  pub mapped_path-SameMap :
      {R : Type 0} (r : R) (path : Text) (s : Sys E)
      → SameMap E fs s (mapped_path E path r s).1
        × ((x : R) → (mapped_path E path r s).0 ≡ returned x → x ≡ r)
  unfolding ensure_vpath_entry_is_irods_entry
  mapped_path-SameMap r path s = (ground arith, λ x e. ground (arith, e))

  init_lazy_opens :
      (h : FileHandle) (cell : Cell E) (s : Sys E)
      → (init_lazy E fs h cell s).0.0 ≡ none
      → (init_lazy E fs h cell s).0.1.irods_file_handle ≢ none
  unfolding init_lazy
  init_lazy_opens h cell s e = ground (arith, e)

  -- The answers of the two ways of truncating, before termination.
  abbrev IsAnswer : Errno → Type 0
  IsAnswer errno = (errno ≡ ok) ⊎ (errno ≡ enoent) ⊎ (errno ≡ eremoteio)

  truncate_writable :
      (size : ℕ) (h : FileHandle) (cell : Cell E) (s : Sys E)
      → s.terminated ≡ false
      → E.is_write h.open_mode ≡ true
      → let ((errno, cell'), s') = Transfers.truncate E fs size h cell s in
        IsAnswer errno × SameMap E fs s s'
  unfolding Transfers.truncate
  truncate_writable size h cell s t w =
      ground (arith, t, w, init_lazy-SameMap E fs h cell s, init_lazy_opens h cell s)

  truncate_handle :
      (size : ℕ) (h : FileHandle) (s : Sys E)
      → s.terminated ≡ false
      → E.is_write h.open_mode ≡ true
      → let (answer, s') = on_handle E h (Transfers.truncate E fs size) s in
        ((answer ≡ none) ⊎ ((errno : Errno) × (answer ≡ some errno) × IsAnswer errno))
        × SameMap E fs s s'
  truncate_handle size h s t w = elim (Option-cases (lookup h.id s.cells)) [
    | inl e ↦ ground (arith, e)
    | inr (cell, e) ↦ ground (arith, e, truncate_writable size h cell s t w)
  ]

  truncate_entry_lem :
      (entry : Entry) (size : ℕ) (s : Sys E)
      → IsAnswer (truncate_entry E fs entry size s).0
        × SameMap E fs s (truncate_entry E fs entry size s).1
  unfolding truncate_entry
  truncate_entry_lem entry size s = ground arith

  irods_stat-SameMap : (path : Text) (s : Sys E) → SameMap E fs s (irods_stat E path s).1
  unfolding irods_stat
  irods_stat-SameMap path s = ground arith

  -- Before termination `Truncate` answers `OK`, `ENOENT` or `EREMOTEIO`: it never meets `EBADFD`, since
  -- it asks a handle only if that can be written to. It opens and closes no handle.
  pub truncate_lem :
      (path : Text) (size : ℕ) (s : Sys E)
      → s.terminated ≡ false
      → let (errno, s') = truncate E fs path size s in
        ((errno ≡ ok) ⊎ (errno ≡ enoent) ⊎ (errno ≡ eremoteio)) × SameMap E fs s s'
  unfolding truncate get_next_operation_id
  truncate_lem path size s t =
      let s1 = (get_next_operation_id s).1 in
      let s2 = (mapped_path E path eremoteio s1).1 in
      let (k, refused) = mapped_path-SameMap eremoteio path s1 in
      elim (Exit-cases (mapped_path E path eremoteio s1).0) [
        | inl (r, e) ↦ ground (arith, t, e, k, refused r e)
        | inr ((v, p), e) ↦
            let s3 = (irods_stat E p s2).1 in
            let l = irods_stat-SameMap p s2 in
            elim (Reply-cases (irods_stat E p s2).0) [
              | inl (x, f) ↦ ground (arith, t, e, k, f, l)
              | inr (entry, f) ↦
                  let opened = list_by_path s3.file_handle_map entry.path in
                  elim (Option-cases (first_writable E fs opened)) [
                    | inl g ↦ ground (arith, t, e, k, f, l, g, truncate_entry_lem entry size s3)
                    | inr (h, g) ↦
                        let (before, after, q, w, r) = first_writable_lem opened h g in
                        let live : s3.terminated ≡ false = ground (arith, t, k, l) in
                        ground (arith, t, e, k, f, l, g, truncate_handle size h s3 live w)
                  ]
            ]
      ]
