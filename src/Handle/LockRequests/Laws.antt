-- ===== src/Handle/LockRequests/Laws.antt =====
-- Lock requests of filehandle.go, one after another on the same handle.
use irodsfs.Base.{◌≡◌, ◌≢◌, inl, inr, ◌≤◌, true, false, arith, some, none, List, Text, Option-cases}
use irodsfs.Base.Dict.{lookup, IsRange}
use irodsfs.Types.{ok, FileHandle}
use irodsfs.Env.{External, Settings, Sys, Cell, get_next_operation_id}
use irodsfs.Locks.{FileHandleLocalLock, f_unlck, overlap_range, get, lock}
use irodsfs.Locks.Acquire.{Grants, lock-Grants}
use irodsfs.Locks.Release.{get_lem}
use irodsfs.Handle.LockRequests.{FileLock, local_lock, get_local_lock, set_local_lock}

module _ (E : External) (fs : Settings) where
  set_local_lock-lock :
      (order : List Text) (lk : FileLock) (handle : FileHandle) (cell : Cell E) (s : Sys E)
      → let ((errno, cell'), s') = set_local_lock E fs order lk handle cell s in
        s.terminated ≡ false
        → lk.typ ≢ f_unlck
        → errno ≡ ok
        → let l = local_lock (E.new_id s.world).0 lk in
          ((lock order cell.locks l).0 ≡ none) × (cell'.locks ≡ (lock order cell.locks l).1)
  unfolding set_local_lock get_next_operation_id
  set_local_lock-lock order lk handle cell s t n e =
      let l = local_lock (E.new_id s.world).0 lk in
      elim (Option-cases (lock order cell.locks l).0) [
        | inl a ↦ (a, ground (arith, t, n, e, a))
        | inr (x, a) ↦ absurd (ground (arith, t, n, e, a))
      ]

  granted_overlaps :
      (l l' : FileHandleLocalLock)
      → Grants l l'
      → l.start ≤ l.end
      → overlap_range l'.start l'.end l.start l.end ≡ true
  unfolding overlap_range
  granted_overlaps l l' g p = ground (arith, g)

  -- After `SetLocalLock` has granted a lock of a range, `GetLocalLock` of that range on the same handle
  -- answers, for every order in which the locks are read, a lock that is held and overlaps the range.
  pub get-set_local_lock :
      (order order' : List Text) (lk asked : FileLock) (handle : FileHandle) (cell : Cell E)
      (s later : Sys E)
      → let ((errno, cell'), s') = set_local_lock E fs order lk handle cell s in
        s.terminated ≡ false
        → later.terminated ≡ false
        → lk.typ ≢ f_unlck
        → lk.start ≤ lk.end
        → asked.start ≡ lk.start
        → asked.end ≡ lk.end
        → errno ≡ ok
        → IsRange order' cell'.locks
        → (k : Text) × (h : FileHandleLocalLock) × (lookup k cell'.locks ≡ some h)
          × (overlap_range h.start h.end lk.start lk.end ≡ true)
          × ((get_local_lock E fs order' asked handle cell' later).0.0 ≡ (
            ok,
            some (record { start = h.start; end = h.end; typ = h.lock_type; pid = h.pid }),
          ))
  unfolding get_local_lock get_next_operation_id
  get-set_local_lock order order' lk asked handle cell s later t u n p q r e range =
      let cell' = (set_local_lock E fs order lk handle cell s).0.1 in
      let l = local_lock (E.new_id s.world).0 lk in
      let (a, b) = set_local_lock-lock order lk handle cell s t n e in
      let (l', c, g) = lock-Grants order cell.locks l a in
      let held : lookup l.id cell'.locks ≡ some l' = rw b c in
      let (sound, complete) = get_lem order' cell'.locks asked.start asked.end range in
      elim (Option-cases (get order' cell'.locks asked.start asked.end)) [
        | inl m ↦
            let o = granted_overlaps l l' g p in
            absurd (ground (arith, complete m l.id l' held, o, q, r))
        | inr (h, m) ↦
            let (k, d, o) = sound h m in (k, h, d, ground (arith, o, q, r), ground (arith, u, m))
      ]
