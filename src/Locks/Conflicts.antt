-- ===== src/Locks/Conflicts.antt =====
-- What `Lock` of filehandle_locallock.go decides, where the process holds no lock that overlaps.
use irodsfs.Base.{
  ◌≡◌, ◌≢◌, sym, ◌∙◌, ap, ◌↔◌, inl, inr, true, false, none, some, List, [], ◌∷◌, Text, same,
  same_iff, arith, if◌then◌else◌, Bool-cases, Option-cases,
}
use irodsfs.Base.Dict.{lookup, insert, contains, IsRange}
use irodsfs.Locks.{FileHandleLocalLock, LockMap, Visit, overlaps, visit, lock_loop, lock}
use irodsfs.Locks.Acquire.{
  Conflict, visit-Conflict, visit_cases, lock_loop-gone, lock_loop-pass, lock_loop-add,
  lock_loop-refuse, contains_tail, contains_head, not_contains_tail, lookup-insert_listed, Accepted,
  accept_loop,
}

module _ (l : FileHandleLocalLock) where
  -- No entry under a listed key that overlaps the new lock is of its process.
  abbrev NoOwn : List Text → LockMap → Type 0
  NoOwn order m =
      (k : Text) (h : FileHandleLocalLock)
      → contains k order ≡ true
      → lookup k m ≡ some h
      → overlaps h l ≡ true
      → h.pid ≢ l.pid

  NoOwn-tail : (k : Text) (order : List Text) (m : LockMap) → NoOwn (k ∷ order) m → NoOwn order m
  NoOwn-tail k order m q j h c e = q j h (contains_tail j k order c) e

  NoOwn-insert :
      (order : List Text) (m : LockMap)
      → contains l.id order ≡ false
      → NoOwn order m
      → NoOwn order (insert l.id l m)
  NoOwn-insert order m f q j h c e = q j h c (sym (lookup-insert_listed l.id j order l m f c) ∙ e)

  visit_update_own :
      (h : FileHandleLocalLock) → visit h l ≡ Visit.update → (overlaps h l ≡ true) × (h.pid ≡ l.pid)
  unfolding visit
  visit_update_own h v = ground arith

  -- A conflicting lock under a key that is still to come is met, or an earlier one is.
  refuse_loop :
      (order : List Text) (m : LockMap) (c : Text) (g : FileHandleLocalLock)
      → contains l.id order ≡ false
      → NoOwn order m
      → contains c order ≡ true
      → lookup c m ≡ some g
      → Conflict g l
      → (lock_loop order m l).0 ≢ none
  unfolding lock_loop contains
  refuse_loop [] m c g f own i e x = cc
  refuse_loop (k ∷ order) m c g f own i e x =
      let f' = not_contains_tail l.id k order f in
      elim (Bool-cases (same k c)) [
        | inl s ↦
            let (x', v) = visit-Conflict g l x in
            rw (lock_loop-refuse k order m l g x' (ap (λ t. lookup t m) ((same_iff k c).0 s) ∙ e) v)
              (λ n. cc n)
        | inr s ↦
            let later : contains c order ≡ true = ground (arith, s) in
            let own' = NoOwn-tail k order m own in
            let on = refuse_loop order m c g f' own' later e x in
            let added =
              refuse_loop order (insert l.id l m) c g f' (NoOwn-insert order m f' own') later
                (lookup-insert_listed l.id c order l m f' later ∙ e) x in
            elim (Option-cases (lookup k m)) [
              | inl gone ↦ rw (lock_loop-gone k order m l gone) on
              | inr (h, found) ↦ elim (visit_cases (visit h l)) [
                | inl v ↦ rw (lock_loop-pass k order m l h found v) on
                | inr (inl v) ↦ rw (lock_loop-add k order m l h found v) added
                | inr (inr (inl v)) ↦
                    let (o, p) = visit_update_own h v in
                    absurd (own k h (contains_head k order) found o p)
                | inr (inr (inr (x', v))) ↦
                    rw (lock_loop-refuse k order m l h x' found v) (λ n. cc n)
              ]
            ]
      ]

  -- For a new ID that the range over the map does not produce, and a process that holds no lock that
  -- overlaps the one asked for, `Lock` returns no error exactly when no lock in the map conflicts
  -- with it. Then it adds the lock and changes no other entry.
  pub lock_exact :
      (order : List Text) (m : LockMap)
      → IsRange order m
      → contains l.id order ≡ false
      → ((k : Text) (h : FileHandleLocalLock)
          → lookup k m ≡ some h
          → overlaps h l ≡ true
          → h.pid ≢ l.pid)
      → ((lock order m l).0 ≡ none
          ↔ ((k : Text) (h : FileHandleLocalLock) → lookup k m ≡ some h → ¬ Conflict h l))
        × ((lock order m l).0 ≡ none
            → (j : Text)
            → lookup j (lock order m l).1 ≡ (if same l.id j then some l else lookup j m))
  lock_exact order m r f own = ((to, from), λ n. (accepted (to n)).1)
    where
      to :
          (lock order m l).0 ≡ none
          → (k : Text) (h : FileHandleLocalLock) → lookup k m ≡ some h
          → ¬ Conflict h l
      to n k h e x = refuse_loop order m k h f (λ j g c. own j g) ((r.covers k).1 (h, e)) e x n

      accepted :
          ((k : Text) (h : FileHandleLocalLock) → lookup k m ≡ some h → ¬ Conflict h l)
          → Accepted l (lock order m l) m
      accepted q = accept_loop l order m f (λ k h c e. (q k h e, own k h e))

      from :
          ((k : Text) (h : FileHandleLocalLock) → lookup k m ≡ some h → ¬ Conflict h l)
          → (lock order m l).0 ≡ none
      from q = (accepted q).0
