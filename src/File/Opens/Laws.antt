-- ===== src/File/Opens/Laws.antt =====
-- What `Open` of file.go does to the open handles, and what it refuses.
use irodsfs.Base.{
  ◌≡◌, ◌≢◌, ◌&&◌, ◌↔◌, ◌⊎◌, inl, inr, refl, ℕ, true, false, not, arith, Option, some, none, Text,
  [], Option-cases, Bool-cases,
}
use irodsfs.Base.Dict.{insert}
use irodsfs.Types.{Errno, ok, eperm, FileHandle, read_only}
use irodsfs.Env.{
  External, Settings, Sys, Cell, file_node, Reply-cases, replied, get_next_operation_id,
}
use irodsfs.VPath.{ensure_vpath_entry_is_irods_entry}
use irodsfs.HandleMap.{add}
use irodsfs.Irods.Access.{irods_get_open_flags}
use irodsfs.Irods.Opens.{irods_open_lazy, new_file_handle_lazy}
use irodsfs.File.Opens.{open_file, is_mode_read_only}

module _ (E : External) (fs : Settings) where
  is_mode_read_only_iff :
      (flags : ℕ)
      → is_mode_read_only (irods_get_open_flags flags) ≡ true
        ↔ irods_get_open_flags flags ≡ read_only
  unfolding irods_get_open_flags
  is_mode_read_only_iff flags = ground arith

  -- On a mapping that is read only, `Open` for anything but reading answers `EPERM`, as it does for a
  -- virtual directory; then only the operation counter moves, and the server is not asked.
  pub open_protected :
      (inode_id : ℕ) (path : Text) (flags : ℕ) (s : Sys E) (v : E.VPathEntry)
      → s.terminated ≡ false
      → E.get_closest_entry path s.world ≡ some v
      → (E.is_virtual_dir_entry v ≡ true)
        ⊎ ((E.vpath_read_only v ≡ true) × (irods_get_open_flags flags ≢ read_only))
      → let s' = (get_next_operation_id s).1 in
        (open_file E fs inode_id path flags s ≡ ((none, 0, eperm), s')) × (s'.world ≡ s.world)
  unfolding open_file get_next_operation_id
  open_protected inode_id path flags s v t e p =
      (ground (arith, t, e, p, is_mode_read_only_iff flags), refl)

  abbrev pub SameHandles : Sys E → Sys E → Type 0
  SameHandles s s' =
      (s'.file_handle_map ≡ s.file_handle_map)
      × (s'.cells ≡ s.cells)
      × (s'.terminated ≡ s.terminated)

  ensure-SameHandles :
      (v : E.VPathEntry) (s : Sys E) → SameHandles s (ensure_vpath_entry_is_irods_entry E v s).1
  unfolding ensure_vpath_entry_is_irods_entry
  ensure-SameHandles v s = ground arith

  -- The handle that is made in a state, for a path on the server.
  abbrev pub lazy_handle : Text → ℕ → Sys E → FileHandle
  lazy_handle irods_path flags s = record {
    id = (E.new_id s.world).0;
    path = irods_path;
    open_mode = irods_get_open_flags flags;
  }

  abbrev pub lazy_cell : ℕ → Text → Cell E
  lazy_cell inode_id path = record {
    file = some (file_node inode_id path);
    irods_file_handle = none;
    reader = none;
    writer = none;
    locks = [];
  }

  abbrev pub IsRefused : (Option FileHandle × ℕ × Errno) × Sys E → Sys E → Type 0
  IsRefused ((result, fuse_flag, errno), s') s = (result ≡ none) × (errno ≢ ok) × SameHandles s s'

  -- What holds when a handle is made: the mapping's entry, the path on the server and the state.
  abbrev pub IsOpened : ℕ → Text → ℕ → (Option FileHandle × ℕ × Errno) × Sys E → Sys E → Type 0
  IsOpened inode_id path flags ((result, fuse_flag, errno), s') s =
      (v : E.VPathEntry) × (irods_path : Text) × (s2 : Sys E) × (let h =
          lazy_handle irods_path flags s2 in
        (E.get_closest_entry path s.world ≡ some v)
        × (E.get_irods_path v path ≡ replied irods_path)
        × (E.vpath_read_only v ≡ true → irods_get_open_flags flags ≡ read_only)
        × (result ≡ some h)
        × (errno ≡ ok)
        × (s'.file_handle_map ≡ add s.file_handle_map h)
        × (s'.cells ≡ insert h.id (lazy_cell inode_id path) s.cells)
        × (s'.terminated ≡ false))

  pub open_cases :
      (inode_id : ℕ) (path : Text) (flags : ℕ) (s : Sys E)
      → IsRefused (open_file E fs inode_id path flags s) s
        ⊎ IsOpened inode_id path flags (open_file E fs inode_id path flags s) s
  unfolding open_file irods_open_lazy new_file_handle_lazy get_next_operation_id
  open_cases inode_id path flags s =
      let s1 = (get_next_operation_id s).1 in
      elim (Bool-cases s.terminated) [
        | inl t ↦ inl (ground (arith, t))
        | inr t ↦ elim (Option-cases (E.get_closest_entry path s.world)) [
          | inl n ↦ inl (ground (arith, t, n))
          | inr (v, n) ↦ elim (Bool-cases (E.is_virtual_dir_entry v)) [
            | inl u ↦ inl (ground (arith, t, n, u))
            | inr u ↦
                let guard =
                  E.vpath_read_only v && not (is_mode_read_only (irods_get_open_flags flags)) in
                elim (Bool-cases guard) [
                  | inl g ↦ inl (ground (arith, t, n, u, g))
                  | inr g ↦
                      let (err, s2) = ensure_vpath_entry_is_irods_entry E v s1 in
                      let k = ensure-SameHandles v s1 in
                      elim (Option-cases err) [
                        | inr (x, m) ↦ inl (ground (arith, t, n, u, g, m, k))
                        | inl m ↦ elim (Reply-cases (E.get_irods_path v path)) [
                          | inl (x, p) ↦ inl (ground (arith, t, n, u, g, m, p, k))
                          | inr (irods_path, p) ↦ inr (
                            v,
                            irods_path,
                            s2,
                            (
                              n,
                              p,
                              ground (arith, g, is_mode_read_only_iff flags),
                              ground (arith, t, n, u, g, m, p),
                              ground (arith, t, n, u, g, m, p),
                              ground (arith, t, n, u, g, m, p, k),
                              ground (arith, t, n, u, g, m, p, k),
                              ground (arith, t, n, u, g, m, p, k),
                            ),
                          )
                        ]
                      ]
                ]
          ]
        ]
      ]

  pub open_lem :
      (inode_id : ℕ) (path : Text) (flags : ℕ) (s : Sys E)
      → let ((result, fuse_flag, errno), s') = open_file E fs inode_id path flags s in
        (errno ≡ ok ↔ result ≢ none)
        × (result ≡ none → (s'.file_handle_map ≡ s.file_handle_map) × (s'.cells ≡ s.cells))
        × ((h : FileHandle)
            → result ≡ some h
            → (h.open_mode ≡ irods_get_open_flags flags)
              × (s'.file_handle_map ≡ add s.file_handle_map h)
              × ((v : E.VPathEntry) × (E.get_closest_entry path s.world ≡ some v)
                  × (E.get_irods_path v path ≡ replied h.path)
                  × (E.vpath_read_only v ≡ true → h.open_mode ≡ read_only))
              × ((cell : Cell E) × (s'.cells ≡ insert h.id cell s.cells)
                  × (cell.file ≡ some (file_node inode_id path))
                  × (cell.irods_file_handle ≡ none)))
  open_lem inode_id path flags s = elim (open_cases inode_id path flags s) [
    | inl (a, b, c) ↦ (ground (arith, a, b), λ e. (c.0, c.1), λ h e. absurd (ground (arith, a, e)))
    | inr (v, irods_path, s2, (n, p, r, a, b, m, c, t)) ↦ (
      ground (arith, a, b),
      λ e. absurd (ground (arith, a, e)),
      λ h e. (
        ground (arith, a, e),
        ground (arith, a, e, m),
        (v, n, ground (arith, a, e, p), ground (arith, a, e, r)),
        (lazy_cell inode_id path, ground (arith, a, e, c), refl, refl),
      ),
    )
  ]
