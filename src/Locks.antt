-- ===== src/Locks.antt =====
-- irodsfs/filehandle_locallock.go: the byte-range locks of one open file. The manager's map is a
-- `Dict` under lock IDs. A `range` over it takes the order of the keys that it produces as its first
-- argument; a key that is gone when its turn comes is skipped, and a key that is inserted meanwhile
-- may be in the order or not, as in Go. Mutexes are left out: a call is one step.
pub mod Ranges
pub mod Acquire
pub mod Conflicts
pub mod Compatibility
pub mod Release
use irodsfs.Base.{
  ℕ, ◌≡◌, Bool, true, false, ◌||◌, not, Option, none, some, List, [], ◌∷◌, Text, ltb, ◌==◌,
  if◌then◌else◌,
}
use irodsfs.Base.Dict.{Dict, lookup, insert, delete}

-- `syscall.F_RDLCK`, `F_WRLCK` and `F_UNLCK` on Linux
abbrev pub f_rdlck : ℕ
f_rdlck = 0

abbrev pub f_wrlck : ℕ
f_wrlck = 1

abbrev pub f_unlck : ℕ
f_unlck = 2

pub record FileHandleLocalLock : Type 0 where
  pub id : Text
  pub lock_type : ℕ
  pub pid : ℕ
  pub start : ℕ
  pub end : ℕ

abbrev pub LockMap : Type 0
LockMap = Dict FileHandleLocalLock

unfoldable pub overlap_range : ℕ → ℕ → ℕ → ℕ → Bool
overlap_range s1 e1 s2 e2 =
    if ltb s2 s1 then (if ltb e2 s1 then false else true) else (if ltb e1 s2 then false else true)

unfoldable pub combine_range : ℕ → ℕ → ℕ → ℕ → ℕ × ℕ
combine_range s1 e1 s2 e2 = (if ltb s2 s1 then s2 else s1, if ltb e1 e2 then e2 else e1)

abbrev pub overlaps : FileHandleLocalLock → FileHandleLocalLock → Bool
overlaps held lock = overlap_range held.start held.end lock.start lock.end

-- The first lock that the range meets and that overlaps.
unfoldable pub get : List Text → LockMap → ℕ → ℕ → Option FileHandleLocalLock
get [] m start end = none
get (k ∷ order) m start end =
    let rest = get order m start end in
    elim (lookup k m) [
      | none ↦ rest
      | some held ↦ if overlap_range held.start held.end start end then some held else rest
    ]

pub data LockError : Type 0 where
  found_conflict_wlock there_is_a_lock failed_to_find_a_lock : LockError

-- What the body of the loop of `Lock` does with a held lock.
pub data Visit : Type 0 where
  pass add update : Visit
  refuse : LockError → Visit

unfoldable pub visit : FileHandleLocalLock → FileHandleLocalLock → Visit
visit held lock =
    if overlaps held lock
    then (if not (held.pid == lock.pid)
        then (if held.lock_type == f_wrlck
            then refuse found_conflict_wlock
            else if lock.lock_type == f_wrlck
            then refuse there_is_a_lock
            else add)
        else update)
    else pass

-- `lock` with the range that covers its own and the held one's.
unfoldable pub combined : FileHandleLocalLock → FileHandleLocalLock → FileHandleLocalLock
unfolding combine_range
combined held lock =
    let (s, e) = combine_range held.start held.end lock.start lock.end in
    record lock { start = s; end = e }

-- The error, if any, and the map that the call leaves behind.
unfoldable pub lock_loop : List Text → LockMap → FileHandleLocalLock → Option LockError × LockMap
lock_loop [] m lock = (none, insert lock.id lock m)
lock_loop (k ∷ order) m lock =
    let rest = lock_loop order m lock in
    let rest_added = lock_loop order (insert lock.id lock m) lock in
    elim (lookup k m) [
      | none ↦ rest
      | some held ↦ elim (visit held lock) [
        | pass ↦ rest
        | add ↦ rest_added
        | update ↦
            let lock' = combined held lock in
            (none, insert lock.id lock' (insert lock.id lock' (delete held.id m)))
        | refuse e ↦ (some e, m)
      ]
    ]

abbrev pub lock : List Text → LockMap → FileHandleLocalLock → Option LockError × LockMap
lock = lock_loop

-- Does the range of `Unlock` remove the entry of this key?
unfoldable pub hits : Text → LockMap → FileHandleLocalLock → Bool
hits k m lock = elim (lookup k m) [ none ↦ false | some held ↦ overlaps held lock ]

unfoldable pub remove_at : Text → LockMap → FileHandleLocalLock → LockMap
remove_at k m lock = elim (lookup k m) [
  | none ↦ m
  | some held ↦ if overlaps held lock then delete held.id m else m
]

unfoldable pub unlock_loop : List Text → LockMap → FileHandleLocalLock → Bool → Bool × LockMap
unlock_loop [] m lock found = (found, m)
unlock_loop (k ∷ order) m lock found =
    unlock_loop order (remove_at k m lock) lock (found || hits k m lock)

unfoldable pub unlock : List Text → LockMap → FileHandleLocalLock → Option LockError × LockMap
unfolding unlock_loop
unlock order m lock =
    let (found, m') = unlock_loop order m lock false in
    (if found then none else some failed_to_find_a_lock, m')
