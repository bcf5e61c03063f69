-- ===== src/Locks/Release.antt =====
-- `Unlock` and `Get` of filehandle_locallock.go.
use irodsfs.Base.{
  ℕ, ◌≡◌, refl, ◌↔◌, inl, inr, Bool, true, false, Option, none, some, List, [], ◌∷◌, Text, same,
  same_iff, same_refl, arith, if◌then◌else◌, Bool-cases, Option-cases,
}
use irodsfs.Base.Dict.{lookup, lookup-delete, contains, IsRange}
use irodsfs.Locks.{
  FileHandleLocalLock, LockMap, overlap_range, overlaps, get, hits, remove_at, unlock_loop, unlock,
}
use irodsfs.Locks.Acquire.{IsKeyed}

-- An entry without those that overlap the lock given.
abbrev pub survivor : FileHandleLocalLock → Option FileHandleLocalLock → Option FileHandleLocalLock
survivor l none = none
survivor l (some h) = if overlaps h l then none else some h

lookup-remove_at :
    (k j : Text) (m : LockMap) (l : FileHandleLocalLock)
    → IsKeyed m
    → lookup j (remove_at k m l) ≡ (if same k j then survivor l (lookup j m) else lookup j m)
unfolding remove_at
lookup-remove_at k j m l keyed = elim (Option-cases (lookup k m)) [
  | inl e ↦ rw (e, remove_at) (ground (arith, same_iff k j))
  | inr (h, e) ↦ rw (e, remove_at) (ground (arith, same_iff k j, keyed k h e, lookup-delete k j m))
]

remove_at-IsKeyed :
    (k : Text) (m : LockMap) (l : FileHandleLocalLock) → IsKeyed m → IsKeyed (remove_at k m l)
remove_at-IsKeyed k m l keyed j h e = keyed j h (ground (arith, lookup-remove_at k j m l keyed, e))

-- The map after the loop.
lookup-unlock_loop :
    (order : List Text) (m : LockMap) (l : FileHandleLocalLock) (found : Bool) (j : Text)
    → IsKeyed m
    → lookup j (unlock_loop order m l found).1
      ≡ (if contains j order then survivor l (lookup j m) else lookup j m)
unfolding unlock_loop contains
lookup-unlock_loop [] m l found j keyed = refl
lookup-unlock_loop (k ∷ order) m l found j keyed =
    rw
      (
        lookup-unlock_loop order (remove_at k m l) l _ j (remove_at-IsKeyed k m l keyed),
        lookup-remove_at k j m l keyed,
      )
      (ground arith)

remove_at_of_miss :
    (k : Text) (m : LockMap) (l : FileHandleLocalLock) → hits k m l ≡ false → remove_at k m l ≡ m
unfolding hits remove_at
remove_at_of_miss k m l h = ground arith

-- The flag after the loop.
unlock_loop_found :
    (order : List Text) (m : LockMap) (l : FileHandleLocalLock)
    → (unlock_loop order m l true).0 ≡ true
unfolding unlock_loop
unlock_loop_found [] m l = refl
unlock_loop_found (k ∷ order) m l = unlock_loop_found order (remove_at k m l) l

unlock_loop-pass :
    (k : Text) (order : List Text) (m : LockMap) (l : FileHandleLocalLock)
    → hits k m l ≡ false
    → unlock_loop (k ∷ order) m l false ≡ unlock_loop order m l false
unfolding unlock_loop
unlock_loop-pass k order m l h = rw (h, remove_at-pass)
  where
    remove_at-pass : remove_at k m l ≡ m
    remove_at-pass = remove_at_of_miss k m l h

unlock_loop-hit :
    (k : Text) (order : List Text) (m : LockMap) (l : FileHandleLocalLock)
    → hits k m l ≡ true
    → (unlock_loop (k ∷ order) m l false).0 ≡ true
unfolding unlock_loop
unlock_loop-hit k order m l h = rw (h, unlock_loop) (unlock_loop_found order (remove_at k m l) l)

hits_iff :
    (k : Text) (m : LockMap) (l : FileHandleLocalLock)
    → hits k m l ≡ true
      ↔ ((h : FileHandleLocalLock) × (lookup k m ≡ some h) × (overlaps h l ≡ true))
unfolding hits
hits_iff k m l = (to, λ (h, e, o). rw (e, hits) o)
  where
    to :
        hits k m l ≡ true
        → (h : FileHandleLocalLock) × (lookup k m ≡ some h) × (overlaps h l ≡ true)
    to t = elim (Option-cases (lookup k m)) [
      | inl e ↦ cc (rw (e, hits) at t)
      | inr (h, e) ↦ (h, e, rw (e, hits) at t)
    ]

unlock_loop-iff_hits :
    (order : List Text) (m : LockMap) (l : FileHandleLocalLock)
    → (unlock_loop order m l false).0 ≡ true
      ↔ ((k : Text) × (contains k order ≡ true) × (hits k m l ≡ true))
unfolding unlock_loop contains
unlock_loop-iff_hits [] m l = (λ h. cc, λ (k, c, h). cc)
unlock_loop-iff_hits (k ∷ order) m l = elim (Bool-cases (hits k m l)) [
  | inl h ↦ (λ _. (k, rw (same_refl k), h), λ _. unlock_loop-hit k order m l h)
  | inr h ↦
      let (to, from) = unlock_loop-iff_hits order m l in
      rw (unlock_loop-pass k order m l h) (
        λ t. let (x, c, g) = to t in (x, ground arith, g),
        λ (x, c, g). from (x, ground (arith, same_iff k x), g),
      )
]

-- `Unlock` fails exactly when no lock in the map overlaps the one given. It takes out every lock that
-- overlaps, whole and of whichever process, and leaves all others as they are.
pub unlock_lem :
    (order : List Text) (m : LockMap) (l : FileHandleLocalLock)
    → IsKeyed m
    → IsRange order m
    → ((unlock order m l).0 ≡ none
        ↔ ((k : Text) × (h : FileHandleLocalLock) × (lookup k m ≡ some h) × (overlaps h l ≡ true)))
      × ((j : Text) → lookup j (unlock order m l).1 ≡ survivor l (lookup j m))
unfolding unlock
unlock_lem order m l keyed r = ((to, from), rest)
  where
    to :
        (unlock order m l).0 ≡ none
        → (k : Text) × (h : FileHandleLocalLock) × (lookup k m ≡ some h) × (overlaps h l ≡ true)
    to n =
        let (k, _, t) = (unlock_loop-iff_hits order m l).0 (ground arith) in
        let (h, e, o) = (hits_iff k m l).0 t in (k, h, e, o)

    from :
        (k : Text) × (h : FileHandleLocalLock) × (lookup k m ≡ some h) × (overlaps h l ≡ true)
        → (unlock order m l).0 ≡ none
    from (k, h, e, o) = rw (
        (unlock_loop-iff_hits order m l).1 (k, (r.covers k).1 (h, e), (hits_iff k m l).1 (h, e, o)))

    rest : (j : Text) → lookup j (unlock order m l).1 ≡ survivor l (lookup j m)
    rest j = elim (Option-cases (lookup j m)) [
      | inl e ↦ rw (lookup-unlock_loop order m l false j keyed, e) (ground arith)
      | inr (h, e) ↦ rw (lookup-unlock_loop order m l false j keyed, (r.covers j).1 (h, e))
    ]

get_sound :
    (order : List Text) (m : LockMap) (s e : ℕ) (h : FileHandleLocalLock)
    → get order m s e ≡ some h
    → (k : Text) × (lookup k m ≡ some h) × (overlap_range h.start h.end s e ≡ true)
unfolding get
get_sound [] m s e h g = cc
get_sound (k ∷ order) m s e h g = elim (Option-cases (lookup k m)) [
  | inl x ↦ get_sound order m s e h (rw (x, get) at g)
  | inr (held, x) ↦ elim (Bool-cases (overlap_range held.start held.end s e)) [
    | inl o ↦ (k, ground arith, ground arith)
    | inr o ↦ get_sound order m s e h (rw (x, get, o) at g)
  ]
]

get_complete :
    (order : List Text) (m : LockMap) (s e : ℕ) (k : Text) (h : FileHandleLocalLock)
    → get order m s e ≡ none
    → contains k order ≡ true
    → lookup k m ≡ some h
    → overlap_range h.start h.end s e ≡ false
unfolding get contains
get_complete [] m s e k h g c x = cc
get_complete (j ∷ order) m s e k h g c x =
    ground (arith, same_iff j k, get_complete order m s e k h)

-- `Get` returns a lock of the map that overlaps the bytes asked about, and none exactly when there is
-- no such lock. Locks of the process that asks count too.
pub get_lem :
    (order : List Text) (m : LockMap) (s e : ℕ)
    → IsRange order m
    → ((h : FileHandleLocalLock)
        → get order m s e ≡ some h
        → (k : Text) × (lookup k m ≡ some h) × (overlap_range h.start h.end s e ≡ true))
      × (get order m s e ≡ none
          → (k : Text) (h : FileHandleLocalLock) → lookup k m ≡ some h
          → overlap_range h.start h.end s e ≡ false)
get_lem order m s e r =
    (get_sound order m s e, λ n k h x. get_complete order m s e k h n ((r.covers k).1 (h, x)) x)
