-- ===== src/Irods/Access.antt =====
-- irods.go: permissions, open flags and the ACL check.
pub mod Laws
use Prim.Native.Nat.{bit_and}
use irodsfs.Base.{
  ℕ, ◌*◌, ◌^◌, ◌+◌, Bool, true, false, ◌&&◌, ◌||◌, List, [], ◌∷◌, Text, same, ltb, ◌==◌,
  if◌then◌else◌,
}
use irodsfs.Base.Dict.{contains}
use irodsfs.Types.{FileOpenMode, read_only, write_only, append, write_truncate, read_write}
use irodsfs.Env.{
  External, Settings, Sys, Entry, Access, AccessLevel, administer_object, owner, modify_object,
  create_object, read_object, execute, curate, null, other_level, UserType, rods_user, rods_group,
  other_user, Reply, failed, replied, M, Exit, returned, running, ◌>>=◌, ◌>>◌, return, return_if,
  ask, body,
}

-- `switch level` of `IRODSGetPermission`
unfoldable pub irods_get_permission : AccessLevel → ℕ
irods_get_permission administer_object = 0o700
irods_get_permission owner = 0o700
irods_get_permission modify_object = 0o700
irods_get_permission create_object = 0o700
irods_get_permission read_object = 0o500
irods_get_permission execute = 0o500
irods_get_permission curate = 0o500
irods_get_permission null = 0
irods_get_permission other_level = 0

-- `os.O_WRONLY`, `O_RDWR`, `O_APPEND` and `O_TRUNC` on Linux
abbrev pub o_wronly : ℕ
o_wronly = 0x1

abbrev pub o_rdwr : ℕ
o_rdwr = 0x2

abbrev pub o_append : ℕ
o_append = 0x400

abbrev pub o_trunc : ℕ
o_trunc = 0x200

-- `flags&flag == flag`
abbrev pub has_flag : ℕ → ℕ → Bool
has_flag flags flag = bit_and flags flag == flag

unfoldable pub irods_get_open_flags : ℕ → FileOpenMode
irods_get_open_flags flags =
    if has_flag flags o_wronly
    then (if has_flag flags o_append
        then append
        else if has_flag flags o_trunc
        then write_truncate
        else write_only)
    else if has_flag flags o_rdwr
    then read_write
    else read_only

abbrev pub is_rods_user : UserType → Bool
is_rods_user rods_user = true
is_rods_user rods_group = false
is_rods_user other_user = false

abbrev pub is_rods_group : UserType → Bool
is_rods_group rods_group = true
is_rods_group rods_user = false
is_rods_group other_user = false

-- The loop of `IRODSGetACL` over the accesses. Both branches of its body do the same with the
-- permission.
unfoldable pub acl_loop : Settings → List Access → ℕ → ℕ
acl_loop fs [] highest_permission = highest_permission
acl_loop fs (access ∷ accesses) highest_permission =
    let perm = irods_get_permission access.access_level in
    let kept = acl_loop fs accesses highest_permission in
    let rest =
      acl_loop fs accesses (if ltb highest_permission perm then perm else highest_permission) in
    if is_rods_user access.user_type && same access.user_name fs.client_user
    then (if perm == 0o700 then perm else rest)
    else if is_rods_group access.user_type
    then (if contains access.user_name fs.user_groups
        then (if perm == 0o700 then perm else rest)
        else kept)
    else kept

module _ (E : External) (fs : Settings) where
  unfoldable pub list_acls : Entry → Sys E → Reply (E.Err) (List Access) × Sys E
  list_acls entry = body do
    (if entry.is_dir then ask (E.list_dir_acls entry.path) else ask (E.list_file_acls entry.path))

  unfoldable pub irods_get_acl : Entry → Bool → Sys E → ℕ × Sys E
  unfolding list_acls acl_loop
  irods_get_acl entry readonly s =
      if readonly
      then (0o500, s)
      else if fs.no_permission_check
      then (0o700, s)
      else if same entry.owner fs.client_user
      then (0o700, s)
      else let (accesses, s') = list_acls entry s in
        elim accesses [ failed err ↦ (0o500, s') | replied l ↦ (acl_loop fs l 0o500, s') ]
