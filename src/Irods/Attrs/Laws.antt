-- ===== src/Irods/Attrs/Laws.antt =====
-- What irods.go answers about an entry: the attribute that it fills in, and what it makes of errors.
use irodsfs.Base.{
  ◌≡◌, ◌↔◌, ◌⊎◌, inl, inr, ℕ, ◌+◌, Bool, true, false, arith, some, none, List, [], ◌∷◌, Text, refl,
  if◌then◌else◌,
}
use irodsfs.Types.{ok, enoent, eremoteio}
use irodsfs.Env.{External, Settings, Sys, Entry, failed, replied}
use irodsfs.Irods.Access.{irods_get_acl}
use irodsfs.Irods.Access.Laws.{irods_get_acl_lem}
use irodsfs.Irods.Attrs.{
  Attr, DirEntry, s_ifdir, s_ifreg, is_transitive_connection_error, set_attr_out_for_irods_entry,
  set_attr_out_for_dummy, irods_getattr, irods_lookup, dir_entries, irods_readdir, irods_opendir,
  dummy_dir_getattr,
}

module _ (E : External) (fs : Settings) where
  -- The names and the kinds of the entries, in their order.
  abbrev pub Lists : List DirEntry → List Entry → Type 0
  Lists [] [] = Unit
  Lists (d ∷ ds) (e ∷ es) =
      (d.name ≡ e.name) × (d.mode ≡ (if e.is_dir then s_ifdir else s_ifreg)) × Lists ds es
  Lists [] (e ∷ es) = ⊥
  Lists (d ∷ ds) [] = ⊥

  dir_entries-Lists : (l : List Entry) (s : Sys E) → Lists (dir_entries E fs l s).0 l
  unfolding dir_entries
  dir_entries-Lists [] s = tt
  dir_entries-Lists (e ∷ l) s = (
    refl,
    refl,
    dir_entries-Lists l (record s { world = (E.inode_for_irods_entry_id e.id s.world).1 }),
  )

  -- When the server lists a directory, `IRODSReaddir` answers no error and one entry for each entry
  -- listed, in the order of the listing, with its name and its kind.
  pub irods_readdir_lem :
      (path : Text) (s : Sys E) (l : List Entry)
      → (E.list path s.world).0 ≡ replied l
      → ((irods_readdir E fs path s).0.1 ≡ ok) × Lists (irods_readdir E fs path s).0.0 l
  unfolding irods_readdir
  irods_readdir_lem path s l e =
      rw e (refl, dir_entries-Lists l (record s { world = (E.list path s.world).1 }))

  -- The bits of the entry's kind and of the access that the user is shown.
  abbrev pub mode_of : Entry → ℕ → ℕ
  mode_of entry access = (if entry.is_dir then s_ifdir else s_ifreg) + access

  irods_get_acl-two :
      (entry : Entry) (r : Bool) (s : Sys E)
      → ((irods_get_acl E fs entry r s).0 ≡ 0o500) ⊎ ((irods_get_acl E fs entry r s).0 ≡ 0o700)
  irods_get_acl-two entry r s = (irods_get_acl_lem E fs entry r s).0

  set_attr-mode :
      (entry : Entry) (m : ℕ) (s : Sys E)
      → (m ≡ 0o500) ⊎ (m ≡ 0o700)
      → (set_attr_out_for_irods_entry E fs entry m s).0.mode ≡ mode_of entry m
  unfolding set_attr_out_for_irods_entry
  set_attr-mode entry m s (inl e) = rw e (ground arith)
  set_attr-mode entry m s (inr e) = rw e (ground arith)

  set_attr-fields :
      (entry : Entry) (m : ℕ) (s : Sys E)
      → let attr = (set_attr_out_for_irods_entry E fs entry m s).0 in
        (attr.size ≡ entry.size)
        × (attr.mtime ≡ entry.modify_time)
        × (attr.uid ≡ fs.uid)
        × (attr.gid ≡ fs.gid)
  unfolding set_attr_out_for_irods_entry
  set_attr-fields entry m s = (refl, refl, refl, refl)

  -- When the server knows an entry, `IRODSGetattr` answers no error and an attribute with the
  -- entry's size, its time, the user's IDs, and as mode the entry's kind with the access that
  -- `IRODSGetACL` grants. `IRODSLookup` and `DummyDirGetattr` answer the same attribute.
  pub irods_getattr_lem :
      (path : Text) (readonly : Bool) (s : Sys E) (entry : Entry)
      → (E.stat path s.world).0 ≡ replied entry
      → (attr : Attr) × ((irods_getattr E fs path readonly s).0 ≡ (ok, some attr))
        × (attr.size ≡ entry.size)
        × (attr.mtime ≡ entry.modify_time)
        × (attr.uid ≡ fs.uid)
        × (attr.gid ≡ fs.gid)
        × (attr.mode
            ≡ mode_of entry
                (irods_get_acl E fs entry readonly
                  (record s { world = (E.stat path s.world).1 })).0)
        × ((irods_lookup E fs path readonly s).0 ≡ (entry.id, entry.is_dir, ok, some attr))
        × ((dummy_dir_getattr E fs path readonly s).0 ≡ (ok, some attr))
  unfolding irods_getattr irods_lookup dummy_dir_getattr
  irods_getattr_lem path readonly s entry e =
      let s1 = record s { world = (E.stat path s.world).1 } in
      let (mode, s2) = irods_get_acl E fs entry readonly s1 in
      let attr = (set_attr_out_for_irods_entry E fs entry mode s2).0 in
      let (size, mtime, uid, gid) = set_attr-fields entry mode s2 in
      let bits = set_attr-mode entry mode s2 (irods_get_acl-two entry readonly s1) in
      rw e (attr, refl, size, mtime, uid, gid, bits, refl, refl)

  -- When the server's answer about a path is an error, `IRODSGetattr` and `IRODSOpendir` answer
  -- `ENOENT` for a missing entry, else no error for a lost or unavailable connection, else
  -- `EREMOTEIO`; the attribute is then that of a directory that may only be read.
  -- `IRODSLookup` and `DummyDirGetattr` answer `ENOENT` or `EREMOTEIO` and no attribute.
  pub stat_failed_lem :
      (path : Text) (readonly : Bool) (s : Sys E) (err : E.Err)
      → (E.stat path s.world).0 ≡ failed err
      → let getattr = (irods_getattr E fs path readonly s).0 in
        let lookup = (irods_lookup E fs path readonly s).0 in
        let dummy = (dummy_dir_getattr E fs path readonly s).0 in
        (getattr.0 ≡ (irods_opendir E fs path s).0)
        × (getattr.0 ≡ enoent ↔ E.is_file_not_found_error err ≡ true)
        × (getattr.0 ≡ ok
            ↔ (E.is_file_not_found_error err ≡ false)
              × ((E.is_connection_error err ≡ true) ⊎ (E.is_connection_pool_full_error err ≡ true)))
        × ((a : Attr) → getattr.1 ≡ some a → (a.mode ≡ s_ifdir + 0o500) × (a.size ≡ 0))
        × (lookup ≡ (0, false, dummy.0, none))
        × (dummy.1 ≡ none)
        × (dummy.0 ≡ (if E.is_file_not_found_error err then enoent else eremoteio))
  unfolding irods_getattr irods_lookup dummy_dir_getattr irods_opendir
      is_transitive_connection_error set_attr_out_for_dummy
  stat_failed_lem path readonly s err e = ground (arith, e)
