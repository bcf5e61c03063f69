-- ===== src/Irods/Xattrs.antt =====
-- The extended attributes of irods.go, and `IsUnhandledAttr` of xattr.go. A `dest` comes back as the
-- call leaves it.
pub mod Laws
use irodsfs.Base.{
  ℕ, ◌^◌, ◌%◌, Bool, true, false, ◌||◌, Option, none, some, List, [], ◌∷◌, ◌++◌, Text, codes, same,
  has_prefix, ltb, length, take, drop, if◌then◌else◌,
}
use irodsfs.Types.{Errno, ok, enoent, erange, enodata, eremoteio}
use irodsfs.Env.{
  External, Sys, Meta, Reply, failed, replied, M, Exit, returned, running, ◌>>=◌, ◌>>◌, return, ask,
  body,
}
use irodsfs.Irods.Attrs.{not_found_or_remote}

unfoldable pub is_unhandled_attr : Text → Bool
is_unhandled_attr attr =
    if has_prefix attr (codes "trusted.overlay.")
    then true
    else if has_prefix attr (codes "user.overlay.")
    then true
    else if has_prefix attr (codes "user.fuseoverlayfs.")
    then true
    else (same attr (codes "system.posix_acl_access")
        || same attr (codes "system.posix_acl_default")
        || same attr (codes "system.dos_attrib")
        || same attr (codes "security.selinux")
        || same attr (codes "security.apparmor")
        || same attr (codes "security.capability")
        || same attr (codes "user.xdg.origin.url")
        || same attr (codes "user.xdg.referrer.url"))

-- Go's `copy`.
abbrev pub copy : List ℕ → List ℕ → List ℕ
copy dest src = take (length dest) src ++ drop (length src) dest

-- The loop that fills `xattrNames`.
unfoldable pub xattr_names : List Meta → List ℕ
xattr_names [] = []
xattr_names (irods_meta ∷ irods_metadata) = irods_meta.name ++ (0 ∷ xattr_names irods_metadata)

-- What `IRODSListxattr` does with `xattrNames`, and `IRODSGetxattr` with the value, once it has them.
abbrev pub put_names : List ℕ → List ℕ → ℕ × Errno × List ℕ
put_names dest names =
    let required = length names in
    if ltb (length dest) required
    then (required % 2 ^ 32, erange, dest)
    else if ltb 0 required
    then (required % 2 ^ 32, ok, copy dest names)
    else (0, ok, dest)

abbrev pub put_value : List ℕ → List ℕ → ℕ × Errno × List ℕ
put_value dest value =
    let required = length value in
    if ltb (length dest) required
    then (required % 2 ^ 32, erange, dest)
    else (required % 2 ^ 32, ok, copy dest value)

module _ (E : External) where
  unfoldable pub irods_listxattr : Text → List ℕ → Sys E → (ℕ × Errno × List ℕ) × Sys E
  irods_listxattr path dest = body do
    reply ← ask (E.list_xattr path)
    elim reply [
      | failed err ↦ return (0, not_found_or_remote E err, dest)
      | replied irods_metadata ↦ return (put_names dest (xattr_names irods_metadata))
    ]

  unfoldable pub irods_getxattr : Text → Text → List ℕ → Sys E → (ℕ × Errno × List ℕ) × Sys E
  irods_getxattr path attr dest = body do
    reply ← ask (E.get_xattr path attr)
    elim reply [
      | failed err ↦ return (0, not_found_or_remote E err, dest)
      | replied none ↦ return (0, enodata, dest)
      | replied (some irods_meta) ↦ return (put_value dest irods_meta.value)
    ]

  unfoldable pub irods_setxattr : Text → Text → Text → Sys E → Errno × Sys E
  irods_setxattr path attr value = body do
    reply ← ask (E.set_xattr path attr value)
    elim reply [ failed err ↦ return (not_found_or_remote E err) | replied _ ↦ return ok ]

  unfoldable pub irods_removexattr : Text → Text → Sys E → Errno × Sys E
  irods_removexattr path attr = body do
    reply ← ask (E.get_xattr path attr)
    elim reply [
      | failed err ↦ return (not_found_or_remote E err)
      | replied none ↦ return enodata
      | replied (some _) ↦ do
        reply ← ask (E.remove_xattr path attr)
        elim reply [ failed err ↦ return (not_found_or_remote E err) | replied _ ↦ return ok ]
    ]
