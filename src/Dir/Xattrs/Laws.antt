-- ===== src/Dir/Xattrs/Laws.antt =====
-- The extended attributes that dir.go keeps from the server.
use irodsfs.Base.{
  ◌≡◌, ◌⊎◌, inl, inr, refl, ℕ, ◌++◌, List, true, false, arith, Text, codes, has_prefix, same,
}
use irodsfs.Base.Texts.{has_prefix-append}
use irodsfs.Types.{eacces, enodata}
use irodsfs.Env.{External, Settings, Sys, get_next_operation_id}
use irodsfs.Irods.Xattrs.{is_unhandled_attr}
use irodsfs.Dir.Xattrs.{getxattr, setxattr}

-- An attribute of an overlay file system, or of an access control list that the kernel asks for.
abbrev pub Unhandled : Text → Type 0
Unhandled attr =
    ((rest : Text) × ((attr ≡ codes "trusted.overlay." ++ rest)
        ⊎ (attr ≡ codes "user.overlay." ++ rest)
        ⊎ (attr ≡ codes "user.fuseoverlayfs." ++ rest)))
    ⊎ (attr ≡ codes "system.posix_acl_access")
    ⊎ (attr ≡ codes "system.posix_acl_default")
    ⊎ (attr ≡ codes "security.selinux")
    ⊎ (attr ≡ codes "security.capability")

is_unhandled_attr_names :
    (is_unhandled_attr (codes "system.posix_acl_access") ≡ true)
    × (is_unhandled_attr (codes "system.posix_acl_default") ≡ true)
    × (is_unhandled_attr (codes "security.selinux") ≡ true)
    × (is_unhandled_attr (codes "security.capability") ≡ true)
unfolding is_unhandled_attr has_prefix same
is_unhandled_attr_names = (refl, refl, refl, refl)

is_unhandled_attr_lem : (attr : Text) → Unhandled attr → is_unhandled_attr attr ≡ true
unfolding is_unhandled_attr
is_unhandled_attr_lem attr (inl (rest, inl e)) =
    rw e (ground (arith, has_prefix-append (codes "trusted.overlay.") rest))
is_unhandled_attr_lem attr (inl (rest, inr (inl e))) =
    rw e (ground (arith, has_prefix-append (codes "user.overlay.") rest))
is_unhandled_attr_lem attr (inl (rest, inr (inr e))) =
    rw e (ground (arith, has_prefix-append (codes "user.fuseoverlayfs.") rest))
is_unhandled_attr_lem attr (inr (inl e)) = rw e is_unhandled_attr_names.0
is_unhandled_attr_lem attr (inr (inr (inl e))) = rw e is_unhandled_attr_names.1
is_unhandled_attr_lem attr (inr (inr (inr (inl e)))) = rw e is_unhandled_attr_names.2
is_unhandled_attr_lem attr (inr (inr (inr (inr e)))) = rw e is_unhandled_attr_names.3

-- While the file system runs, `Getxattr` answers `ENODATA` for such an attribute and changes nothing,
-- and `Setxattr` answers `EACCES` for it, and for every attribute when setting is switched off;
-- then only the operation counter moves, and the server is not asked.
pub unhandled_lem :
    (E : External) (fs : Settings) (path attr value : Text) (dest : List ℕ) (s : Sys E)
    → s.terminated ≡ false
    → Unhandled attr
    → let s' = (get_next_operation_id s).1 in
      (getxattr E fs path attr dest s ≡ ((0, enodata, dest), s))
      × (setxattr E fs path attr value s ≡ (eacces, s'))
      × (setxattr E (record fs { no_set_xattr = true }) path (codes "user.any") value s
          ≡ (eacces, s'))
      × (s'.world ≡ s.world)
unfolding getxattr setxattr get_next_operation_id
unhandled_lem E fs path attr value dest s t p =
    let u = is_unhandled_attr_lem attr p in
    (ground (arith, t, u), ground (arith, t, u), ground (arith, t), refl)
