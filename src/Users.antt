-- ===== src/Users.antt =====
-- utils/system_user.go: `GetCurrentSystemUser` and `CorrectSystemUser`. What the operating system
-- answers is in Os. An error is `none`.
pub mod Laws
use irodsfs.Base.{
  Bool, true, false, not, Option, none, some, Text, codes, length, ◌==◌, [], if◌then◌else◌,
}
use irodsfs.Base.Ints.{ℤ, pos, is_negative}
use irodsfs.Os.{User, Os}

-- `strconv.ParseInt` of both IDs; `none` is an error.
abbrev pub ids_of : User → Option (Text × ℤ × ℤ)
ids_of u = elim (u.uid) [
  | none ↦ none
  | some uid ↦ elim (u.gid) [ none ↦ none | some gid ↦ some (u.username, uid, gid) ]
]

-- The current user's name and IDs, and whether there was no error.
unfoldable pub get_current_system_user : Os → Text × ℤ × ℤ × Bool
get_current_system_user os = elim (os.current) [
  | none ↦ (codes "root", pos 0, pos 0, false)
  | some u ↦ elim (ids_of u) [
    | none ↦ (codes "root", pos 0, pos 0, false)
    | some ids ↦ (ids.0, ids.1, ids.2, true)
  ]
]

-- The name, the user ID and the group ID, or an error.
unfoldable pub correct_system_user : Os → Text → ℤ → ℤ → Option (Text × ℤ × ℤ)
correct_system_user os username uid gid =
    if not (length username == 0)
    then elim (os.lookup username) [
      | none ↦ none
      | some u ↦ elim (ids_of u) [ none ↦ none | some ids ↦ some (username, ids.1, ids.2) ]
    ]
    else if not (is_negative uid)
    then elim (os.lookup_id uid) [
      | none ↦ some ([], uid, if is_negative gid then uid else gid)
      | some u ↦ ids_of u
    ]
    else elim (os.current) [ none ↦ none | some u ↦ ids_of u ]
