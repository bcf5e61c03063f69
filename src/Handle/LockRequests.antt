-- ===== src/Handle/LockRequests.antt =====
-- filehandle.go: `GetLocalLock`, `SetLocalLock` and `SetLocalLockW`, over the lock manager of the
-- handle. The range over its map takes the order of the keys as an argument.
pub mod Laws
use irodsfs.Base.{ℕ, Option, none, some, List, Text, ◌==◌, if◌then◌else◌}
use irodsfs.Types.{Errno, ok, enoent, eagain, enotsup, econnaborted, FileHandle}
use irodsfs.Locks.{FileHandleLocalLock, f_unlck, get, lock, unlock}
use irodsfs.Env.{
  External, Settings, Sys, Cell, Exit, returned, running, ◌>>=◌, ◌>>◌, return, ask, call, nil_or,
  unless_terminated, body, get_next_operation_id,
}

-- `FileLock` of go-fuse.
pub record FileLock : Type 0 where
  pub start : ℕ
  pub end : ℕ
  pub typ : ℕ
  pub pid : ℕ

-- The lock that the manager is asked for.
abbrev pub local_lock : Text → FileLock → FileHandleLocalLock
local_lock id lk = record {
  id = id;
  lock_type = lk.typ;
  pid = lk.pid;
  start = lk.start;
  end = lk.end;
}

module _ (E : External) (fs : Settings) where
  -- `out` is `none` where it is not filled in.
  unfoldable pub get_local_lock :
      List Text
      → FileLock
      → FileHandle
      → Cell E
      → Sys E
      → ((Errno × Option FileLock) × Cell E) × Sys E
  get_local_lock order lk handle cell = body do
    unless_terminated ((econnaborted, none), cell)
    _ ← call get_next_operation_id
    elim (get order cell.locks lk.start lk.end) [
      | some found ↦ return (
        (
          ok,
          some (record {
            start = found.start;
            end = found.end;
            typ = found.lock_type;
            pid = found.pid;
          }),
        ),
        cell,
      )
      | none ↦ return ((ok, some (record lk { typ = f_unlck })), cell)
    ]

  unfoldable pub set_local_lock :
      List Text → FileLock → FileHandle → Cell E → Sys E → (Errno × Cell E) × Sys E
  set_local_lock order lk handle cell = body do
    unless_terminated (econnaborted, cell)
    _ ← call get_next_operation_id
    id ← ask E.new_id
    (if lk.typ == f_unlck
        then (do
          let (err, locks) = unlock order cell.locks (local_lock id lk)
          nil_or err (λ err. (enoent, record cell { locks = locks }))
          return (ok, record cell { locks = locks }))
        else (do
          let (err, locks) = lock order cell.locks (local_lock id lk)
          nil_or err (λ err. (eagain, record cell { locks = locks }))
          return (ok, record cell { locks = locks })))

  unfoldable pub set_local_lock_w :
      List Text → FileLock → FileHandle → Cell E → Sys E → (Errno × Cell E) × Sys E
  set_local_lock_w order lk handle cell =
      body do unless_terminated (econnaborted, cell); return (enotsup, cell)
