-- ===== src/Dir/Frames.antt =====
-- The handlers of dir.go that leave the open handles alone.
use irodsfs.Base.{
  ◌≡◌, inl, inr, refl, ℕ, Bool, true, arith, Option, none, List, [], ◌∷◌, ◌∙◌, Text, Option-cases,
  Bool-cases,
}
use irodsfs.Types.{Errno, is_ok}
use irodsfs.Env.{
  External, Settings, Sys, Entry, VirtualDir, Node, Reply-cases, Exit-cases, get_next_operation_id,
}
use irodsfs.VPath.{ensure_vpath_entry_is_irods_dir, ensure_vpath_entry_is_irods_entry}
use irodsfs.Irods.Access.{irods_get_acl, list_acls}
use irodsfs.Irods.Attrs.{
  Attr, set_attr_out_for_irods_entry, set_attr_out_for_dummy, set_attr_out_for_virtual_dir_entry,
  irods_getattr, irods_lookup, irods_opendir, irods_readdir, dir_entries,
}
use irodsfs.Irods.Changes.{irods_rmdir, irods_unlink, irods_mkdir}
use irodsfs.Irods.Xattrs.{irods_listxattr, irods_getxattr, irods_setxattr, irods_removexattr}
use irodsfs.Dir.Attrs.{
  getattr, setattr, lookup, opendir, readdir, fsync, virtual_dir_entry, virtual_dir_entries,
}
use irodsfs.Dir.Xattrs.{listxattr, getxattr, setxattr, removexattr}
use irodsfs.Dir.Changes.{rmdir, unlink, mkdir, modifiable_path}

module _ (E : External) (fs : Settings) where
  -- The handles of the second state are those of the first, and both are terminated or neither is.
  abbrev pub Kept : Sys E → Sys E → Type 0
  Kept s s' =
      (s'.file_handle_map ≡ s.file_handle_map)
      × (s'.cells ≡ s.cells)
      × (s'.terminated ≡ s.terminated)

  modifiable_path-Kept :
      {R : Type 0} (r : Errno → R) (target : Text) (s : Sys E)
      → Kept s (modifiable_path E fs target r s).1
  unfolding ensure_vpath_entry_is_irods_dir ensure_vpath_entry_is_irods_entry get_next_operation_id
  modifiable_path-Kept r target s = ground arith

  irods_rmdir-Kept : (path : Text) (s : Sys E) → Kept s (irods_rmdir E path s).1
  unfolding irods_rmdir
  irods_rmdir-Kept path s = ground arith

  irods_unlink-Kept : (path : Text) (s : Sys E) → Kept s (irods_unlink E path s).1
  unfolding irods_unlink
  irods_unlink-Kept path s = ground arith

  irods_mkdir-Kept : (path : Text) (s : Sys E) → Kept s (irods_mkdir E fs path s).1
  unfolding irods_mkdir irods_get_acl list_acls set_attr_out_for_irods_entry
  irods_mkdir-Kept path s = ground arith

  pub irods_getattr-Kept :
      (path : Text) (r : Bool) (s : Sys E) → Kept s (irods_getattr E fs path r s).1
  unfolding irods_getattr irods_get_acl list_acls set_attr_out_for_irods_entry
      set_attr_out_for_dummy
  irods_getattr-Kept path r s = ground arith

  irods_lookup-Kept : (path : Text) (r : Bool) (s : Sys E) → Kept s (irods_lookup E fs path r s).1
  unfolding irods_lookup irods_get_acl list_acls set_attr_out_for_irods_entry
  irods_lookup-Kept path r s = ground arith

  pub rmdir-Kept : (path name : Text) (s : Sys E) → Kept s (rmdir E fs path name s).1
  unfolding rmdir
  rmdir-Kept path name s =
      let target = E.join_path path name in
      let k = modifiable_path-Kept (λ errno. errno) target s in
      let s1 = (modifiable_path E fs target (λ errno. errno) s).1 in
      elim (Exit-cases (modifiable_path E fs target (λ errno. errno) s).0) [
        | inl (r, e) ↦ ground (arith, e, k)
        | inr (p, e) ↦ ground (arith, e, k, irods_rmdir-Kept p s1)
      ]

  ensure-Kept : (v : E.VPathEntry) (s : Sys E) → Kept s (ensure_vpath_entry_is_irods_dir E v s).1
  unfolding ensure_vpath_entry_is_irods_dir ensure_vpath_entry_is_irods_entry
  ensure-Kept v s = ground arith

  ensure_entry-Kept :
      (v : E.VPathEntry) (s : Sys E) → Kept s (ensure_vpath_entry_is_irods_entry E v s).1
  unfolding ensure_vpath_entry_is_irods_entry
  ensure_entry-Kept v s = ground arith

  virtual-Kept :
      (d : VirtualDir) (s : Sys E) → Kept s (set_attr_out_for_virtual_dir_entry E fs d s).1
  unfolding set_attr_out_for_virtual_dir_entry
  virtual-Kept d s = ground arith

  dummy-Kept : (path : Text) (s : Sys E) → Kept s (set_attr_out_for_dummy E fs path true s).1
  unfolding set_attr_out_for_dummy
  dummy-Kept path s = ground arith

  pub getattr-Kept : (path : Text) (s : Sys E) → Kept s (getattr E fs path s).1
  unfolding getattr get_next_operation_id
  getattr-Kept path s =
      let s1 = (get_next_operation_id s).1 in
      elim (Option-cases (E.get_closest_entry path s.world)) [
        | inl n ↦ ground (arith, n)
        | inr (v, n) ↦
            let s2 = (ensure_vpath_entry_is_irods_dir E v s1).1 in
            let k = ensure-Kept v s1 in
            let d = virtual-Kept (E.virtual_dir_entry v) s1 in
            elim (Reply-cases (E.get_irods_path v path)) [
              | inl (x, g) ↦ ground (arith, n, g, k, d, dummy-Kept path s2)
              | inr (p, g) ↦
                  let i = irods_getattr-Kept p (E.vpath_read_only v) s2 in
                  ground (arith, n, g, k, d, dummy-Kept path s2, i)
            ]
      ]

  pub listxattr-Kept :
      (path : Text) (dest : List ℕ) (s : Sys E) → Kept s (listxattr E fs path dest s).1
  unfolding listxattr get_next_operation_id ensure_vpath_entry_is_irods_dir
      ensure_vpath_entry_is_irods_entry irods_listxattr
  listxattr-Kept path dest s = ground arith

  pub setxattr-Kept :
      (path attr value : Text) (s : Sys E) → Kept s (setxattr E fs path attr value s).1
  unfolding setxattr get_next_operation_id ensure_vpath_entry_is_irods_dir
      ensure_vpath_entry_is_irods_entry irods_setxattr
  setxattr-Kept path attr value s = ground arith

  pub removexattr-Kept : (path attr : Text) (s : Sys E) → Kept s (removexattr E fs path attr s).1
  unfolding removexattr get_next_operation_id ensure_vpath_entry_is_irods_dir
      ensure_vpath_entry_is_irods_entry irods_removexattr
  removexattr-Kept path attr s = ground arith

  pub opendir-Kept : (path : Text) (s : Sys E) → Kept s (opendir E fs path s).1
  unfolding opendir get_next_operation_id ensure_vpath_entry_is_irods_dir
      ensure_vpath_entry_is_irods_entry irods_opendir
  opendir-Kept path s = ground arith

  pub getxattr-Kept :
      (path attr : Text) (dest : List ℕ) (s : Sys E) → Kept s (getxattr E fs path attr dest s).1
  unfolding getxattr get_next_operation_id ensure_vpath_entry_is_irods_dir
      ensure_vpath_entry_is_irods_entry irods_getxattr
  getxattr-Kept path attr dest s = ground arith

  pub unlink-Kept : (path name : Text) (s : Sys E) → Kept s (unlink E fs path name s).1
  unfolding unlink
  unlink-Kept path name s =
      let target = E.join_path path name in
      let k = modifiable_path-Kept (λ errno. errno) target s in
      let s1 = (modifiable_path E fs target (λ errno. errno) s).1 in
      elim (Exit-cases (modifiable_path E fs target (λ errno. errno) s).0) [
        | inl (r, e) ↦ ground (arith, e, k)
        | inr (p, e) ↦ ground (arith, e, k, irods_unlink-Kept p s1)
      ]

  abbrev MkdirResult : Type 0
  MkdirResult = Option Node × Errno × Option Attr

  abbrev refusal : Errno → MkdirResult
  refusal errno = (none, errno, none)

  pub mkdir-Kept : (path name : Text) (s : Sys E) → Kept s (mkdir E fs path name s).1
  unfolding mkdir
  mkdir-Kept path name s =
      let target = E.join_path path name in
      let k = modifiable_path-Kept refusal target s in
      let s1 = (modifiable_path E fs target refusal s).1 in
      elim (Exit-cases (modifiable_path E fs target refusal s).0) [
        | inl (r, e) ↦ ground (arith, e, k)
        | inr (p, e) ↦ ground (arith, e, k, irods_mkdir-Kept p s1)
      ]

  pub lookup-Kept : (path name : Text) (s : Sys E) → Kept s (lookup E fs path name s).1
  unfolding lookup get_next_operation_id
  lookup-Kept path name s =
      let target = E.join_path path name in
      let s1 = (get_next_operation_id s).1 in
      elim (Option-cases (E.get_closest_entry target s.world)) [
        | inl n ↦ ground (arith, n)
        | inr (v, n) ↦
            let s2 = (ensure_vpath_entry_is_irods_entry E v s1).1 in
            let k = ensure_entry-Kept v s1 in
            let entry = E.virtual_dir_entry v in
            let d =
              virtual-Kept entry
                (record s1 { world = (E.inode_for_vpath_entry_id entry.id s.world).1 }) in
            elim (Bool-cases (E.is_virtual_dir_entry v)) [
              | inl b ↦ ground (arith, n, b, d)
              | inr b ↦ elim (Option-cases (ensure_vpath_entry_is_irods_entry E v s1).0) [
                | inr (x, f) ↦ ground (arith, n, b, f, k)
                | inl f ↦ elim (Reply-cases (E.get_irods_path v target)) [
                  | inl (x, g) ↦ ground (arith, n, b, f, g, k)
                  | inr (p, g) ↦
                      let i = irods_lookup-Kept p (E.vpath_read_only v) s2 in
                      let r = irods_lookup E fs p (E.vpath_read_only v) s2 in
                      elim (Bool-cases s.terminated) [
                        | inl t ↦ ground (arith, t)
                        | inr t ↦ elim (Bool-cases (is_ok r.0.2)) [
                          | inl o ↦ ground (arith, t, n, b, f, g, o, k, i)
                          | inr o ↦ ground (arith, t, n, b, f, g, o, k, i)
                        ]
                      ]
                ]
              ]
            ]
      ]

  pub setattr-Kept : (s : Sys E) → Kept s (setattr E fs s).1
  unfolding setattr
  setattr-Kept s = ground arith

  pub fsync-Kept : (s : Sys E) → Kept s (fsync E fs s).1
  unfolding fsync get_next_operation_id
  fsync-Kept s = ground arith

  dir_entries-Kept : (l : List Entry) (s : Sys E) → Kept s (dir_entries E fs l s).1
  unfolding dir_entries
  dir_entries-Kept [] s = (refl, refl, refl)
  dir_entries-Kept (e ∷ l) s =
      dir_entries-Kept l (record s { world = (E.inode_for_irods_entry_id e.id s.world).1 })

  irods_readdir-Kept : (path : Text) (s : Sys E) → Kept s (irods_readdir E fs path s).1
  unfolding irods_readdir
  irods_readdir-Kept path s = elim (Reply-cases (E.list path s.world).0) [
    | inl (x, e) ↦ ground (arith, e)
    | inr (l, e) ↦
        ground (arith, e, dir_entries-Kept l (record s { world = (E.list path s.world).1 }))
  ]

  virtual_dir_entry-Kept : (v : E.VPathEntry) (s : Sys E) → Kept s (virtual_dir_entry E fs v s).1
  unfolding virtual_dir_entry
  virtual_dir_entry-Kept v s = ground arith

  virtual_dir_entries-Kept :
      (l : List (E.VPathEntry)) (s : Sys E) → Kept s (virtual_dir_entries E fs l s).1
  unfolding virtual_dir_entries
  virtual_dir_entries-Kept [] s = (refl, refl, refl)
  virtual_dir_entries-Kept (v ∷ l) s =
      let (g, h, i) = virtual_dir_entry-Kept v s in
      let (g', h', i') = virtual_dir_entries-Kept l (virtual_dir_entry E fs v s).1 in
      (g' ∙ g, h' ∙ h, i' ∙ i)

  pub readdir-Kept : (path : Text) (s : Sys E) → Kept s (readdir E fs path s).1
  unfolding readdir get_next_operation_id
  readdir-Kept path s =
      let s1 = (get_next_operation_id s).1 in
      elim (Option-cases (E.get_closest_entry path s.world)) [
        | inl n ↦ ground (arith, n)
        | inr (v, n) ↦
            let s2 = (ensure_vpath_entry_is_irods_dir E v s1).1 in
            let k = ensure-Kept v s1 in
            let d = virtual_dir_entries-Kept (E.virtual_dir_entries v s.world) s1 in
            elim (Reply-cases (E.get_irods_path v path)) [
              | inl (x, g) ↦ ground (arith, n, g, k, d)
              | inr (p, g) ↦ ground (arith, n, g, k, d, irods_readdir-Kept p s2)
            ]
      ]
