-- ===== src/Handle/Cells.antt =====
-- filehandle.go: what each method leaves of a handle's cell.
use irodsfs.Base.{
  ◌≡◌, ◌⊎◌, ℕ, List, Option, none, some, Text, arith, Option-cases, Bool-cases, inl, inr,
}
use irodsfs.Base.Ints.{ℤ}
use irodsfs.Types.{FileHandle}
use irodsfs.Env.{External, Settings, Sys, Cell, get_next_operation_id}
use irodsfs.Handle.Transfers.{init_lazy, read, write, truncate, flush, fsync}
use irodsfs.Handle.LockRequests.{FileLock, get_local_lock, set_local_lock, set_local_lock_w}
use irodsfs.Handle.Nodes
use irodsfs.File.LockRequests

module _ (E : External) (fs : Settings) where
  pub read_cell :
      (dest : List ℕ) (offset : ℤ) (handle : FileHandle) (cell : Cell E) (s : Sys E)
      → let cell' = (read E fs dest offset handle cell s).0.1 in
        (cell' ≡ cell) ⊎ (cell' ≡ (init_lazy E fs handle cell s).0.1)
  unfolding read
  read_cell dest offset handle cell s = ground arith

  pub write_cell :
      (bytes : List ℕ) (offset : ℤ) (handle : FileHandle) (cell : Cell E) (s : Sys E)
      → let cell' = (write E fs bytes offset handle cell s).0.1 in
        (cell' ≡ cell) ⊎ (cell' ≡ (init_lazy E fs handle cell s).0.1)
  unfolding write
  write_cell bytes offset handle cell s = ground arith

  pub truncate_cell :
      (size : ℕ) (handle : FileHandle) (cell : Cell E) (s : Sys E)
      → let cell' = (truncate E fs size handle cell s).0.1 in
        (cell' ≡ cell) ⊎ (cell' ≡ (init_lazy E fs handle cell s).0.1)
  unfolding truncate
  truncate_cell size handle cell s = ground arith

  pub flush_cell :
      (handle : FileHandle) (cell : Cell E) (s : Sys E)
      → ((flush E fs handle cell s).0.1 ≡ cell) × ((fsync E fs handle cell s).0.1 ≡ cell)
  unfolding flush fsync
  flush_cell handle cell s = ground arith

  -- The fields that are not the locks.
  abbrev pub SameParts : Cell E → Cell E → Type 0
  SameParts cell cell' =
      (cell'.irods_file_handle ≡ cell.irods_file_handle)
      × (cell'.reader ≡ cell.reader)
      × (cell'.writer ≡ cell.writer)

  pub locks_cell :
      (order : List Text) (lk : FileLock) (handle : FileHandle) (cell : Cell E) (s : Sys E)
      → SameParts cell (get_local_lock E fs order lk handle cell s).0.1
        × SameParts cell (set_local_lock E fs order lk handle cell s).0.1
        × SameParts cell (set_local_lock_w E fs order lk handle cell s).0.1
  unfolding get_local_lock set_local_lock set_local_lock_w get_next_operation_id
  locks_cell order lk handle cell s = ground arith

  pub getattr_cell :
      (handle : FileHandle) (cell : Cell E) (s : Sys E)
      → (Nodes.getattr E fs handle cell s).0.1 ≡ cell
  unfolding Nodes.getattr
  getattr_cell handle cell s = elim (Option-cases cell.file) [
    | inl n ↦ ground (arith, n)
    | inr (f, n) ↦ ground (arith, n)
  ]

  -- The cell after `Setattr` is the one that it is given, the one after opening, or the one after a
  -- `Truncate` of the opened handle.
  pub setattr_cell :
      (in_size : Option ℕ) (handle : FileHandle) (cell : Cell E) (s : Sys E)
      → let cell1 = (init_lazy E fs handle cell s).0.1 in
        let cell' = (Nodes.setattr E fs in_size handle cell s).0.1 in
        (cell' ≡ cell)
        ⊎ (cell' ≡ cell1)
        ⊎ ((size : ℕ) × (s2 : Sys E) × (cell' ≡ (truncate E fs size handle cell1 s2).0.1))
  unfolding Nodes.setattr
  setattr_cell none handle cell s = elim (Option-cases (init_lazy E fs handle cell s).0.1.file) [
    | inl n ↦ ground (arith, n)
    | inr (f, n) ↦ ground (arith, n)
  ]
  setattr_cell (some size) handle cell s =
      let ((err, cell1), s1) = init_lazy E fs handle cell s in
      let s2 = (get_next_operation_id s1).1 in
      elim (Bool-cases s.terminated) [
        | inl t ↦ inl (ground (arith, t))
        | inr t ↦ elim (Option-cases err) [
          | inr (x, n) ↦ inr (inl (ground (arith, t, n)))
          | inl n ↦ inr (inr (size, s2, ground (arith, t, n)))
        ]
      ]

  file_locks_cell :
      (order : List Text) (lk : FileLock) (handle : FileHandle) (cell : Cell E) (s : Sys E)
      → SameParts cell (LockRequests.getlk E fs order lk handle cell s).0.1
        × SameParts cell (LockRequests.setlk E fs order lk handle cell s).0.1
        × SameParts cell (LockRequests.setlkw E fs order lk handle cell s).0.1
  unfolding LockRequests.getlk LockRequests.setlk LockRequests.setlkw
  file_locks_cell order lk handle cell s =
      ground (arith, locks_cell order lk handle cell (get_next_operation_id s).1)

  pub lock_requests_cell :
      (order : List Text) (lk : FileLock) (handle : FileHandle) (cell : Cell E) (s : Sys E)
      → SameParts cell (Nodes.getlk E fs order lk handle cell s).0.1
        × SameParts cell (Nodes.setlk E fs order lk handle cell s).0.1
        × SameParts cell (Nodes.setlkw E fs order lk handle cell s).0.1
  unfolding Nodes.getlk Nodes.setlk Nodes.setlkw
  lock_requests_cell order lk handle cell s =
      let counted = file_locks_cell order lk handle cell (get_next_operation_id s).1 in
      let l = file_locks_cell order lk handle cell s in
      elim (Option-cases cell.file) [
        | inl n ↦ ground (arith, n)
        | inr (f, n) ↦ ground (arith, n, counted, l)
      ]
