-- ===== src/Tests/Locks.antt =====
-- Locks of processes 1 and 2, and requests of process 3 and of process 1.
use irodsfs.Base.{
  ◌≡◌, ◌≢◌, ◌⊎◌, ◌↔◌, if◌then◌else◌, refl, inl, inr, true, arith, ℕ, ◌≤◌, some, none, [], ◌∷◌, Text,
  same, same_iff,
}
use irodsfs.Base.Dict.{lookup, insert, contains, IsRange}
use irodsfs.Locks.{
  FileHandleLocalLock, LockMap, f_rdlck, f_wrlck, overlap_range, lock, lock_loop, visit, overlaps,
}
use irodsfs.Locks.Acquire.{Conflict, IsKeyed}
use irodsfs.Locks.Conflicts.{lock_exact}
use irodsfs.Locks.Compatibility.{own_lock_hides-Conflict, lock-Compatible, Compatible}
use irodsfs.Tests.Maps.{keys-IsRange}

abbrev key : ℕ → Text
key n = n ∷ []

abbrev reader : FileHandleLocalLock
reader = record { id = key 1; lock_type = f_rdlck; pid = 1; start = 0; end = 9 }

abbrev writer : FileHandleLocalLock
writer = record { id = key 2; lock_type = f_wrlck; pid = 2; start = 10; end = 19 }

abbrev held : LockMap
held = (key 1, reader) ∷ (key 2, writer) ∷ []

abbrev asked : FileHandleLocalLock
asked = record { id = key 3; lock_type = f_rdlck; pid = 3; start = 5; end = 8 }

abbrev asked_wide : FileHandleLocalLock
asked_wide = record { id = key 3; lock_type = f_rdlck; pid = 3; start = 5; end = 12 }

abbrev asked_own : FileHandleLocalLock
asked_own = record { id = key 3; lock_type = f_rdlck; pid = 1; start = 5; end = 12 }

held-IsRange : IsRange (key 1 ∷ key 2 ∷ []) held
unfolding contains same
held-IsRange = keys-IsRange held (refl, (refl, tt))

held_entries :
    (k : Text) (h : FileHandleLocalLock)
    → lookup k held ≡ some h
    → ((k ≡ key 1) × (h ≡ reader)) ⊎ ((k ≡ key 2) × (h ≡ writer))
unfolding lookup
held_entries k h e = ground (arith, e, same_iff (key 1) k, same_iff (key 2) k)

held-IsKeyed : IsKeyed held
held-IsKeyed k h e = elim (held_entries k h e) [
  | inl (q, r) ↦ rw (q, r) refl
  | inr (q, r) ↦ rw (q, r) refl
]

held_proper : (k : Text) (h : FileHandleLocalLock) → lookup k held ≡ some h → h.start ≤ h.end
held_proper k h e = elim (held_entries k h e) [
  | inl (q, r) ↦ rw r (omega arith)
  | inr (q, r) ↦ rw r (omega arith)
]

held_others :
    (k : Text) (h : FileHandleLocalLock)
    → lookup k held ≡ some h
    → overlaps h asked ≡ true
    → h.pid ≢ asked.pid
held_others k h e o = elim (held_entries k h e) [
  | inl (q, r) ↦ rw r (omega arith)
  | inr (q, r) ↦ rw r (omega arith)
]

held-Compatible : Compatible held
unfolding overlap_range
held-Compatible j k g h e e' = elim (held_entries j g e) [
  | inl (q, r) ↦ elim (held_entries k h e') [
    | inl (q', r') ↦ rw (r, r') (ground arith)
    | inr (q', r') ↦ rw (r, r') (ground arith)
  ]
  | inr (q, r) ↦ elim (held_entries k h e') [
    | inl (q', r') ↦ rw (r, r') (ground arith)
    | inr (q', r') ↦ rw (r, r') (ground arith)
  ]
]

asked_granted : (lock (key 1 ∷ key 2 ∷ []) held asked).0 ≡ none
unfolding lock_loop visit overlap_range lookup insert same
asked_granted = refl

lock_exact_example :
    ((lock (key 1 ∷ key 2 ∷ []) held asked).0 ≡ none
      ↔ ((k : Text) (h : FileHandleLocalLock) → lookup k held ≡ some h → ¬ Conflict h asked))
    × ((lock (key 1 ∷ key 2 ∷ []) held asked).0 ≡ none
        → (j : Text)
        → lookup j (lock (key 1 ∷ key 2 ∷ []) held asked).1
          ≡ (if same asked.id j then some asked else lookup j held))
unfolding contains same
lock_exact_example = lock_exact asked (key 1 ∷ key 2 ∷ []) held held-IsRange refl held_others

lock-Compatible_example : Compatible (lock (key 1 ∷ key 2 ∷ []) held asked).1
unfolding contains same
lock-Compatible_example =
    lock-Compatible (key 1 ∷ key 2 ∷ []) held asked held-IsRange refl held_others (omega arith)
      held_proper held-Compatible asked_granted

own_lock_hides-Conflict_example :
    ((lock (key 1 ∷ key 2 ∷ []) held asked_own).0 ≡ none)
    × (¬ Compatible (lock (key 1 ∷ key 2 ∷ []) held asked_own).1)
unfolding lookup same overlap_range
own_lock_hides-Conflict_example =
    own_lock_hides-Conflict (key 1) (key 2) (key 2 ∷ []) held asked_own reader writer held-IsKeyed
      refl refl refl refl (λ e. cc e) (omega arith) (omega arith)
      ((λ e. omega (arith, e)), refl, inl refl)
