-- ===== src/Dir/Changes/Laws.antt =====
-- The guard that the changing handlers of dir.go share, and what `Create` does to the open handles.
use irodsfs.Base.{
  ◌≡◌, ◌≢◌, ◌↔◌, ◌⊎◌, inl, inr, refl, ℕ, true, false, arith, Option, some, none, Text, same_iff,
  Option-cases,
}
use irodsfs.Base.Dict.{insert}
use irodsfs.Types.{Errno, ok, eperm, FileHandle}
use irodsfs.Env.{
  External, Settings, Sys, Cell, Node, file_node, Exit-cases, returned, Entry, Reply-cases,
  get_next_operation_id,
}
use irodsfs.VPath.{
  is_vpath_entry_unmodifiable, ensure_vpath_entry_is_irods_dir, ensure_vpath_entry_is_irods_entry,
}
use irodsfs.HandleMap.{add}
use irodsfs.Irods.Access.{irods_get_open_flags, irods_get_acl, list_acls}
use irodsfs.Irods.Attrs.{Attr, set_attr_out_for_irods_entry}
use irodsfs.Irods.Opens.{init_reader_writer, new_file_handle, report_access, irods_create}
use irodsfs.Dir.Changes.{rmdir, unlink, mkdir, create, modifiable_path}

module _ (E : External) (fs : Settings) where
  unmodifiable :
      (target : Text) (v : E.VPathEntry)
      → (E.vpath_path v ≡ target) ⊎ (E.vpath_read_only v ≡ true) ⊎ (E.is_virtual_dir_entry v ≡ true)
      → is_vpath_entry_unmodifiable E v target ≡ true
  unfolding is_vpath_entry_unmodifiable
  unmodifiable target v p = ground (arith, p, same_iff (E.vpath_path v) target)

  -- When the entry of the mapping that is closest to the target is the target itself, is read only or
  -- is virtual, `Rmdir`, `Unlink`, `Mkdir` and `Create` answer `EPERM` and nothing more, and only the
  -- operation counter moves: the server is not asked.
  pub protected_lem :
      (path name : Text) (flags : ℕ) (s : Sys E) (v : E.VPathEntry)
      → s.terminated ≡ false
      → E.get_closest_entry (E.join_path path name) s.world ≡ some v
      → (E.vpath_path v ≡ E.join_path path name)
        ⊎ (E.vpath_read_only v ≡ true)
        ⊎ (E.is_virtual_dir_entry v ≡ true)
      → let s' = (get_next_operation_id s).1 in
        (s'.world ≡ s.world)
        × (rmdir E fs path name s ≡ (eperm, s'))
        × (unlink E fs path name s ≡ (eperm, s'))
        × (mkdir E fs path name s ≡ ((none, eperm, none), s'))
        × (create E fs path name flags s ≡ ((none, none, 0, eperm, none), s'))
  unfolding rmdir unlink mkdir create get_next_operation_id
  protected_lem path name flags s v t e p =
      let u = unmodifiable (E.join_path path name) v p in
      (
        refl,
        ground (arith, t, e, u),
        ground (arith, t, e, u),
        ground (arith, t, e, u),
        ground (arith, t, e, u),
      )

  -- The handles of the second state are those of the first.
  abbrev pub SameHandles : Sys E → Sys E → Type 0
  SameHandles s s' = (s'.file_handle_map ≡ s.file_handle_map) × (s'.cells ≡ s.cells)

  new_file_handle-SameHandles :
      (h : E.IrodsHandle) (s : Sys E) → SameHandles s (new_file_handle E h s).1
  unfolding new_file_handle init_reader_writer
  new_file_handle-SameHandles h s = ground arith

  create_tail-SameHandles :
      (entry : Entry) (s : Sys E)
      → let (mode, s1) = irods_get_acl E fs entry false s in
        SameHandles s (set_attr_out_for_irods_entry E fs entry mode s1).1
  unfolding irods_get_acl list_acls set_attr_out_for_irods_entry
  create_tail-SameHandles entry s = ground arith

  irods_create_lem :
      (path : Text) (flags : ℕ) (s : Sys E)
      → SameHandles s (irods_create E fs path flags s).1
        × ((irods_create E fs path flags s).0.2 ≡ ok ↔ (irods_create E fs path flags s).0.1 ≢ none)
  unfolding irods_create
  irods_create_lem path flags s =
      let mode = irods_get_open_flags flags in
      let w1 = (E.create_file path mode s.world).1 in
      let w2 = (E.stat path w1).1 in
      elim (Reply-cases (E.create_file path mode s.world).0) [
        | inl (x, e) ↦ ground (arith, e)
        | inr (h, e) ↦ elim (Reply-cases (E.stat path w1).0) [
          | inl (x, e2) ↦ ground (arith, e, e2)
          | inr (entry, e2) ↦
              let s3 = (report_access E fs h (record s { world = w2 })).1 in
              let n = new_file_handle-SameHandles h s3 in
              let k = create_tail-SameHandles entry (new_file_handle E h s3).1 in
              elim (Reply-cases (new_file_handle E h s3).0) [
                | inl (x, e3) ↦ ground (arith, e, e2, e3, n)
                | inr (hc, e3) ↦ ground (arith, e, e2, e3, n, k)
              ]
        ]
      ]

  -- The answers of `Create` before it calls `IRODSCreate`.
  abbrev CreateResult : Type 0
  CreateResult = Option Node × Option FileHandle × ℕ × Errno × Option Attr

  abbrev refusal : Errno → CreateResult
  refusal errno = (none, none, 0, errno, none)

  modifiable_path_lem :
      (target : Text) (s : Sys E)
      → SameHandles s (modifiable_path E fs target refusal s).1
        × ((r : CreateResult)
            → (modifiable_path E fs target refusal s).0 ≡ returned r
            → (r.1 ≡ none) × (r.3 ≢ ok))
  unfolding ensure_vpath_entry_is_irods_dir ensure_vpath_entry_is_irods_entry get_next_operation_id
  modifiable_path_lem target s = ground arith

  -- `Create` answers a handle exactly when it answers no error. It then adds that handle to the open
  -- handles and stores its cell, with the new file node; otherwise the open handles stay as they were.
  pub create_lem :
      (path name : Text) (flags : ℕ) (s : Sys E)
      → let (result, s') = create E fs path name flags s in
        (result.3 ≡ ok ↔ result.1 ≢ none)
        × (result.1 ≡ none → SameHandles s s')
        × ((h : FileHandle)
            → result.1 ≡ some h
            → (s'.file_handle_map ≡ add s.file_handle_map h)
              × ((cell : Cell E) × (cell.file ≡ result.0) × (s'.cells ≡ insert h.id cell s.cells)))
  unfolding create
  create_lem path name flags s =
      let target = E.join_path path name in
      let s1 = (modifiable_path E fs target refusal s).1 in
      let (same1, refused) = modifiable_path_lem target s in
      elim (Exit-cases (modifiable_path E fs target refusal s).0) [
        | inl (r, e) ↦
            let f = refused r e in
            (
              ground (arith, e, f),
              ground (arith, e, f, same1),
              λ h q. absurd (ground (arith, e, f, q)),
            )
        | inr (irods_path, e) ↦
            let c = irods_create_lem irods_path flags s1 in
            elim (Option-cases (irods_create E fs irods_path flags s1).0.1) [
              | inl n ↦ (
                ground (arith, e, c, n),
                ground (arith, e, c, n, same1),
                λ h q. absurd (ground (arith, e, c, n, q)),
              )
              | inr ((handle, cell), n) ↦
                  let node =
                    file_node
                      (E.inode_for_irods_entry_id (irods_create E fs irods_path flags s1).0.0
                        (irods_create E fs irods_path flags s1).1.world).0
                      target in
                  (
                    ground (arith, e, c, n),
                    ground (arith, e, c, n),
                    λ h q. (
                      ground (arith, e, c, n, same1, q),
                      (
                        record cell { file = some node },
                        ground (arith, e, c, n, same1, q),
                        ground (arith, e, c, n, same1, q),
                      ),
                    ),
                  )
            ]
      ]
