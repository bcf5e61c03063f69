-- ===== src/File/Xattrs/Laws.antt =====
-- The extended attributes of file.go against those of dir.go.
use irodsfs.Base.{◌≡◌, inl, inr, ℕ, true, false, arith, List, Text, some, Option-cases}
use irodsfs.Types.{eacces, einval}
use irodsfs.Env.{External, Settings, Sys, get_next_operation_id}
use irodsfs.VPath.{ensure_vpath_entry_is_irods_entry, ensure_vpath_entry_is_irods_dir}
use irodsfs.Irods.Xattrs.{is_unhandled_attr}
use irodsfs.Dir.Xattrs
use irodsfs.File.Xattrs.{listxattr, getxattr, setxattr, removexattr}

module _ (E : External) (fs : Settings) where
  -- The entry of the mapping is a collection, once it is up to date.
  abbrev pub IsCollection : E.VPathEntry → Sys E → Type 0
  IsCollection v s =
      (E.irods_entry v (ensure_vpath_entry_is_irods_entry E v s).1.world).is_dir ≡ true

  ensure_collection :
      (v : E.VPathEntry) (s : Sys E)
      → IsCollection v s
      → ensure_vpath_entry_is_irods_dir E v s ≡ ensure_vpath_entry_is_irods_entry E v s
  unfolding ensure_vpath_entry_is_irods_dir
  ensure_collection v s d = elim (Option-cases (ensure_vpath_entry_is_irods_entry E v s).0) [
    | inl e ↦ ground (arith, d, e)
    | inr (x, e) ↦ ground (arith, d, e)
  ]

  -- Below a mapped collection, a file answers requests for its extended attributes as a directory with
  -- the same path does; but where the file system sets attributes at all, setting one that is not
  -- handled is `EINVAL` for a file and `EACCES` for a directory.
  pub xattrs_agree :
      (path attr value : Text) (dest : List ℕ) (s : Sys E) (v : E.VPathEntry)
      → let s1 = (get_next_operation_id s).1 in
        s.terminated ≡ false
        → E.get_closest_entry path s.world ≡ some v
        → E.is_virtual_dir_entry v ≡ false
        → IsCollection v s1
        → (listxattr E fs path dest s ≡ Xattrs.listxattr E fs path dest s)
          × (getxattr E fs path attr dest s ≡ Xattrs.getxattr E fs path attr dest s)
          × (removexattr E fs path attr s ≡ Xattrs.removexattr E fs path attr s)
          × (is_unhandled_attr attr ≡ false
              → setxattr E fs path attr value s ≡ Xattrs.setxattr E fs path attr value s)
          × (fs.no_set_xattr ≡ false
              → is_unhandled_attr attr ≡ true
              → (setxattr E fs path attr value s ≡ (einval, s1))
                × (Xattrs.setxattr E fs path attr value s ≡ (eacces, s1)))
  unfolding listxattr getxattr setxattr removexattr Xattrs.listxattr Xattrs.getxattr Xattrs.setxattr
      Xattrs.removexattr get_next_operation_id
  xattrs_agree path attr value dest s v t n u c =
      let d = ensure_collection v (get_next_operation_id s).1 c in
      (
        ground (arith, t, n, u, d),
        ground (arith, t, n, u, d),
        ground (arith, t, n, u, d),
        λ h. ground (arith, t, n, u, d, h),
        λ x y. (ground (arith, t, n, u, d, x, y), ground (arith, t, n, u, d, x, y)),
      )
