-- ===== src/Locks/Compatibility.antt =====
-- When `Lock` of filehandle_locallock.go keeps conflicting locks apart, and when it does not.
use irodsfs.Base.{
  Option, ◌≤◌, ◌≡◌, ◌≢◌, refl, sym, ◌∙◌, ap, inl, inr, true, false, none, some, List, ◌∷◌, Text,
  same, same_ne, arith, Bool-cases,
}
use irodsfs.Base.Dict.{
  lookup, insert, delete, lookup-insert, lookup-insert_self, lookup-delete, contains, IsRange,
}
use irodsfs.Locks.{
  FileHandleLocalLock, LockMap, Visit, found_conflict_wlock, f_wrlck, f_rdlck, overlap_range,
  combined, overlaps, visit, lock,
}
use irodsfs.Locks.Acquire.{Conflict, IsKeyed, lock_loop-add, lock_loop-update, lock_loop-refuse}
use irodsfs.Locks.Conflicts.{lock_exact}

-- No two locks of different processes stand side by side that conflict.
abbrev pub Compatible : LockMap → Type 0
Compatible m =
    (j k : Text) (g h : FileHandleLocalLock)
    → lookup j m ≡ some g
    → lookup k m ≡ some h
    → ¬ Conflict g h

visit_own :
    (h l : FileHandleLocalLock) → h.pid ≡ l.pid → overlaps h l ≡ true → visit h l ≡ Visit.update
unfolding visit
visit_own h l p o = ground arith

visit_reader :
    (h l : FileHandleLocalLock)
    → h.pid ≢ l.pid
    → h.lock_type ≡ f_rdlck
    → l.lock_type ≡ f_rdlck
    → overlaps h l ≡ true
    → visit h l ≡ Visit.add
unfolding visit
visit_reader h l p t u o = ground arith

visit_writer :
    (h l : FileHandleLocalLock)
    → h.pid ≢ l.pid
    → h.lock_type ≡ f_wrlck
    → overlaps h l ≡ true
    → visit h l ≡ Visit.refuse found_conflict_wlock
unfolding visit
visit_writer h l p t o = ground arith

combined-Conflict :
    (own h l : FileHandleLocalLock)
    → h.start ≤ h.end
    → l.start ≤ l.end
    → Conflict h l
    → Conflict h (combined own l)
unfolding combined overlap_range
combined-Conflict own h l y z x = (ground arith, ground arith, ground arith)

-- The bug of the early `break`: a lock of the same process that overlaps and is read first is
-- replaced by the new one, which is granted whatever other locks there are. So if another process
-- has a write lock on bytes asked for, two conflicting locks stand side by side afterwards.
pub own_lock_hides-Conflict :
    (k c : Text) (order : List Text) (m : LockMap) (l own other : FileHandleLocalLock)
    → IsKeyed m
    → lookup k m ≡ some own
    → own.pid ≡ l.pid
    → overlaps own l ≡ true
    → lookup c m ≡ some other
    → c ≢ l.id
    → other.start ≤ other.end
    → l.start ≤ l.end
    → Conflict other l
    → ((lock (k ∷ order) m l).0 ≡ none) × (¬ Compatible (lock (k ∷ order) m l).1)
own_lock_hides-Conflict k c order m l own other keyed e p o e' n y z x =
    rw (lock_loop-update k order m l own e (visit_own own l p o)) (
      refl,
      λ compatible.
          compatible c l.id other (combined own l) kept (lookup-insert_self l.id (combined own l) _)
            (combined-Conflict own other l y z x),
    )
  where
    apart : c ≢ own.id
    apart s = x.0 (cc (sym e' ∙ ap (λ t. lookup t m) (s ∙ keyed k own e) ∙ e))

    kept :
        lookup c (insert l.id (combined own l) (insert l.id (combined own l) (delete own.id m)))
        ≡ some other
    kept =
        rw
          (
            lookup-insert l.id c (combined own l) (insert l.id (combined own l) (delete own.id m)),
            same_ne l.id c (λ s. n (sym s)),
            lookup-insert l.id c (combined own l) (delete own.id m),
            same_ne l.id c (λ s. n (sym s)),
            lookup-delete own.id c m,
            same_ne own.id c (λ s. apart (sym s)),
          )
          e'

-- The bug of the early insertion: a reader's request that meets another reader's lock first and a
-- writer's lock next is refused, and yet it stays in the map.
pub refused_lock_stays :
    (k c : Text) (order : List Text) (m : LockMap) (l reader writer : FileHandleLocalLock)
    → lookup k m ≡ some reader
    → reader.pid ≢ l.pid
    → reader.lock_type ≡ f_rdlck
    → l.lock_type ≡ f_rdlck
    → overlaps reader l ≡ true
    → lookup c m ≡ some writer
    → c ≢ l.id
    → writer.lock_type ≡ f_wrlck
    → writer.pid ≢ l.pid
    → overlaps writer l ≡ true
    → let (error, m') = lock (k ∷ c ∷ order) m l in (error ≢ none) × (lookup l.id m' ≡ some l)
refused_lock_stays k c order m l reader writer e p t u o e' n w p' o' =
    rw
      (
        lock_loop-add k (c ∷ order) m l reader e (visit_reader reader l p t u o),
        lock_loop-refuse c order (insert l.id l m) l writer found_conflict_wlock
            (lookup-insert l.id c l m ∙ rw (same_ne l.id c (λ s. n (sym s))) e')
            (visit_writer writer l p' w o'),
      )
      ((λ g. cc g), lookup-insert_self l.id l m)

Conflict-symm :
    (g h : FileHandleLocalLock) → g.start ≤ g.end → h.start ≤ h.end → Conflict g h → Conflict h g
unfolding overlap_range
Conflict-symm g h p q c = ground arith

Conflict-of_some :
    (l g h : FileHandleLocalLock)
    → ◌≡◌ {A = Option FileHandleLocalLock} (some l) (some g)
    → Conflict g h
    → Conflict l h
Conflict-of_some l g h e c = ground arith

Conflict-to_some :
    (l h g : FileHandleLocalLock)
    → ◌≡◌ {A = Option FileHandleLocalLock} (some l) (some h)
    → Conflict g h
    → Conflict g l
Conflict-to_some l h g e c = ground arith

-- Where `Lock` meets no lock of the same process, it keeps the map free of conflicts: if all ranges
-- are proper and no two locks of the map conflict, then after a call that returns no error none do.
pub lock-Compatible :
    (order : List Text) (m : LockMap) (l : FileHandleLocalLock)
    → IsRange order m
    → contains l.id order ≡ false
    → ((k : Text) (h : FileHandleLocalLock)
        → lookup k m ≡ some h
        → overlaps h l ≡ true
        → h.pid ≢ l.pid)
    → l.start ≤ l.end
    → ((k : Text) (h : FileHandleLocalLock) → lookup k m ≡ some h → h.start ≤ h.end)
    → Compatible m
    → (lock order m l).0 ≡ none
    → Compatible (lock order m l).1
lock-Compatible order m l r f own proper proper_held old n j k g h e e' =
    let (decide, after) = lock_exact l order m r f own in
    let quiet = decide.0 n in
    let e₁ = sym (after n j) ∙ e in
    let e₂ = sym (after n k) ∙ e' in
    elim (Bool-cases (same l.id j)) [
      | inl s ↦ elim (Bool-cases (same l.id k)) [
        | inl t ↦ λ c. c.0 (cc (rw s at e₁, rw t at e₂))
        | inr t ↦ λ c. quiet k h (rw t at e₂) (
            Conflict-symm l h proper (proper_held k h (rw t at e₂))
              (Conflict-of_some l g h (rw s at e₁) c))
      ]
      | inr s ↦ elim (Bool-cases (same l.id k)) [
        | inl t ↦ λ c. quiet j g (rw s at e₁) (Conflict-to_some l h g (rw t at e₂) c)
        | inr t ↦ old j k g h (rw s at e₁) (rw t at e₂)
      ]
    ]
