-- ===== src/Locks/Acquire.antt =====
-- `Lock` of filehandle_locallock.go.
use irodsfs.Base.{
  ◌≤◌, ◌≡◌, ◌≢◌, refl, sym, ◌∙◌, ◌⊎◌, inl, inr, true, false, Option, none, some, List, [], ◌∷◌,
  Text, same, same_iff, same_refl, arith, subst, ◌==◌, if◌then◌else◌, Bool-cases, Option-cases,
}
use irodsfs.Base.Dict.{lookup, insert, delete, lookup-insert, lookup-insert_self, contains}
use irodsfs.Locks.{
  FileHandleLocalLock, LockMap, LockError, Visit, found_conflict_wlock, there_is_a_lock, f_wrlck,
  combined, overlaps, visit, lock_loop, lock,
}

-- Another process's lock that a byte-range lock must not be granted beside.
abbrev pub Conflict : FileHandleLocalLock → FileHandleLocalLock → Type 0
Conflict held new =
    (held.pid ≢ new.pid)
    × (overlaps held new ≡ true)
    × ((held.lock_type ≡ f_wrlck) ⊎ (new.lock_type ≡ f_wrlck))

-- Each entry stands under its own ID.
abbrev pub IsKeyed : LockMap → Type 0
IsKeyed m = (k : Text) (h : FileHandleLocalLock) → lookup k m ≡ some h → h.id ≡ k

pub visit-Conflict :
    (h l : FileHandleLocalLock) → Conflict h l → (e : LockError) × (visit h l ≡ Visit.refuse e)
unfolding visit
visit-Conflict h l (p, o, inl w) = (found_conflict_wlock, ground arith)
visit-Conflict h l (p, o, inr w) = elim (Bool-cases (h.lock_type == f_wrlck)) [
  | inl e ↦ (found_conflict_wlock, ground arith)
  | inr e ↦ (there_is_a_lock, ground arith)
]

visit_quiet :
    (h l : FileHandleLocalLock)
    → ¬ Conflict h l
    → (overlaps h l ≡ true → h.pid ≢ l.pid)
    → (visit h l ≡ Visit.pass) ⊎ (visit h l ≡ Visit.add)
unfolding visit
visit_quiet h l n p = ground arith

combined_bounds :
    (h l : FileHandleLocalLock)
    → ((combined h l).id ≡ l.id)
      × ((combined h l).pid ≡ l.pid)
      × ((combined h l).lock_type ≡ l.lock_type)
      × ((combined h l).start ≤ l.start)
      × (l.end ≤ (combined h l).end)
unfolding combined
combined_bounds h l = ground arith

-- A lock of the caller that covers the bytes asked for.
abbrev pub Grants : FileHandleLocalLock → FileHandleLocalLock → Type 0
Grants l l' =
    (l'.id ≡ l.id)
    × (l'.pid ≡ l.pid)
    × (l'.lock_type ≡ l.lock_type)
    × (l'.start ≤ l.start)
    × (l.end ≤ l'.end)

-- One round of the loop, for each thing that it may meet.
module _ (k : Text) (order : List Text) (m : LockMap) (l : FileHandleLocalLock) where
  pub lock_loop-gone : lookup k m ≡ none → lock_loop (k ∷ order) m l ≡ lock_loop order m l
  unfolding lock_loop
  lock_loop-gone e = rw (e, lock_loop)

  pub lock_loop-pass :
      (h : FileHandleLocalLock)
      → lookup k m ≡ some h
      → visit h l ≡ Visit.pass
      → lock_loop (k ∷ order) m l ≡ lock_loop order m l
  unfolding lock_loop
  lock_loop-pass h e v = rw (e, lock_loop) (rw (v, lock_loop))

  pub lock_loop-add :
      (h : FileHandleLocalLock)
      → lookup k m ≡ some h
      → visit h l ≡ Visit.add
      → lock_loop (k ∷ order) m l ≡ lock_loop order (insert l.id l m) l
  unfolding lock_loop
  lock_loop-add h e v = rw (e, lock_loop) (rw (v, lock_loop))

  pub lock_loop-update :
      (h : FileHandleLocalLock)
      → lookup k m ≡ some h
      → visit h l ≡ Visit.update
      → lock_loop (k ∷ order) m l
        ≡ (none, insert l.id (combined h l) (insert l.id (combined h l) (delete h.id m)))
  unfolding lock_loop
  lock_loop-update h e v = rw (e, lock_loop) (rw (v, lock_loop))

  pub lock_loop-refuse :
      (h : FileHandleLocalLock) (x : LockError)
      → lookup k m ≡ some h
      → visit h l ≡ Visit.refuse x
      → lock_loop (k ∷ order) m l ≡ (some x, m)
  unfolding lock_loop
  lock_loop-refuse h x e v = rw (e, lock_loop) (rw (v, lock_loop))

pub visit_cases :
    (v : Visit)
    → (v ≡ Visit.pass)
      ⊎ (v ≡ Visit.add)
      ⊎ (v ≡ Visit.update)
      ⊎ ((x : LockError) × (v ≡ Visit.refuse x))
visit_cases Visit.pass = inl refl
visit_cases Visit.add = inr (inl refl)
visit_cases Visit.update = inr (inr (inl refl))
visit_cases (Visit.refuse x) = inr (inr (inr (x, refl)))

-- When `Lock` returns no error, in whatever order the map was read, the map holds under the new ID a
-- lock of that process and type that covers the range asked for.
pub lock-Grants :
    (order : List Text) (m : LockMap) (l : FileHandleLocalLock)
    → (lock order m l).0 ≡ none
    → (l' : FileHandleLocalLock) × (lookup l.id (lock order m l).1 ≡ some l') × Grants l l'
unfolding lock_loop
lock-Grants [] m l h = (l, lookup-insert_self l.id l m, ground arith)
lock-Grants (k ∷ order) m l h = elim (Option-cases (lookup k m)) [
  | inl e ↦ let r = lock_loop-gone k order m l e in rw r (lock-Grants order m l (rw r at h))
  | inr (held, e) ↦ elim (visit_cases (visit held l)) [
    | inl v ↦
        let r = lock_loop-pass k order m l held e v in rw r (lock-Grants order m l (rw r at h))
    | inr (inl v) ↦
        let r = lock_loop-add k order m l held e v in
        rw r (lock-Grants order (insert l.id l m) l (rw r at h))
    | inr (inr (inl v)) ↦
        rw (lock_loop-update k order m l held e v)
          (combined held l, lookup-insert_self l.id (combined held l) _, combined_bounds held l)
    | inr (inr (inr (x, v))) ↦ cc (sym (rw (lock_loop-refuse k order m l held x e v) at h))
  ]
]

pub contains_tail :
    (j k : Text) (order : List Text) → contains j order ≡ true → contains j (k ∷ order) ≡ true
unfolding contains
contains_tail j k order h = ground arith

pub contains_head : (k : Text) (order : List Text) → contains k (k ∷ order) ≡ true
unfolding contains
contains_head k order = rw (same_refl k)

pub not_contains_tail :
    (j k : Text) (order : List Text) → contains j (k ∷ order) ≡ false → contains j order ≡ false
unfolding contains
not_contains_tail j k order h = ground arith

pub lookup-insert_listed :
    (i j : Text) (order : List Text) (v : FileHandleLocalLock) (m : LockMap)
    → contains i order ≡ false
    → contains j order ≡ true
    → lookup j (insert i v m) ≡ lookup j m
lookup-insert_listed i j order v m h g = elim (Bool-cases (same i j)) [
  | inl e ↦ cc (h, subst (λ t. contains t order ≡ true) (sym ((same_iff i j).0 e)) g)
  | inr e ↦ rw (lookup-insert i j v m, e)
]

module _ (l : FileHandleLocalLock) where
  -- Of the entries under the listed keys, none conflicts with the new lock, and none that overlaps it
  -- is of the same process.
  abbrev pub Quiet : List Text → LockMap → Type 0
  Quiet order m =
      (k : Text) (h : FileHandleLocalLock)
      → contains k order ≡ true
      → lookup k m ≡ some h
      → (¬ Conflict h l) × (overlaps h l ≡ true → h.pid ≢ l.pid)

  pub Quiet-tail :
      (k : Text) (order : List Text) (m : LockMap) → Quiet (k ∷ order) m → Quiet order m
  Quiet-tail k order m q j h c e = q j h (contains_tail j k order c) e

  pub Quiet-insert :
      (order : List Text) (m : LockMap)
      → contains l.id order ≡ false
      → Quiet order m
      → Quiet order (insert l.id l m)
  Quiet-insert order m f q j h c e = q j h c (sym (lookup-insert_listed l.id j order l m f c) ∙ e)

  -- The call returns no error, adds the new lock and changes nothing else.
  abbrev pub Accepted : Option LockError × LockMap → LockMap → Type 0
  Accepted r m =
      (r.0 ≡ none) × ((j : Text) → lookup j r.1 ≡ (if same l.id j then some l else lookup j m))

  Accepted-of_added :
      (r : Option LockError × LockMap) (m : LockMap) → Accepted r (insert l.id l m) → Accepted r m
  Accepted-of_added r m (n, f) = (n, λ j. rw (f j, lookup-insert l.id j l m) (ground arith))

  pub accept_loop :
      (order : List Text) (m : LockMap)
      → contains l.id order ≡ false
      → Quiet order m
      → Accepted (lock_loop order m l) m
  unfolding lock_loop
  accept_loop [] m c q = (refl, λ j. lookup-insert l.id j l m)
  accept_loop (k ∷ order) m c q =
      let c' = not_contains_tail l.id k order c in
      let on = accept_loop order m c' (Quiet-tail k order m q) in
      let added =
        accept_loop order (insert l.id l m) c' (Quiet-insert order m c' (Quiet-tail k order m q)) in
      elim (Option-cases (lookup k m)) [
        | inl e ↦ rw (lock_loop-gone k order m l e) on
        | inr (h, e) ↦
            let (no_conflict, other) = q k h (contains_head k order) e in
            elim (visit_quiet h l no_conflict other) [
              | inl v ↦ rw (lock_loop-pass k order m l h e v) on
              | inr v ↦ rw (lock_loop-add k order m l h e v) (Accepted-of_added _ m added)
            ]
      ]
