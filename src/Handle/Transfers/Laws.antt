-- ===== src/Handle/Transfers/Laws.antt =====
-- What reading of filehandle.go answers, and how a lazily made handle is opened.
use irodsfs.Base.{
  ◌≡◌, ◌≢◌, ◌↔◌, ◌⊎◌, ◌≤◌, inl, inr, ℕ, suc, zero, true, false, arith, List, [], ◌∷◌, some, none,
  Option-cases, length, take,
}
use irodsfs.Base.Ints.{ℤ, exceeds}
use irodsfs.Types.{ok, eremoteio, ebadfd, FileHandle}
use irodsfs.Env.{External, Settings, Sys, Cell, Reader, Writer, failed, replied}
use irodsfs.Irods.Opens.{init_reader_writer, report_access}
use irodsfs.Handle.Transfers.{init_lazy, read, truncate, flush, fsync}

module _ (E : External) (fs : Settings) where
  -- The handles of the second state are those of the first, and both are terminated or neither is.
  abbrev pub SameMap : Sys E → Sys E → Type 0
  SameMap s s' = (s'.file_handle_map ≡ s.file_handle_map) × (s'.terminated ≡ s.terminated)

  pub init_lazy-SameMap :
      (handle : FileHandle) (cell : Cell E) (s : Sys E) → SameMap s (init_lazy E fs handle cell s).1
  unfolding init_lazy init_reader_writer
  init_lazy-SameMap handle cell s = ground arith

  init_lazy_done :
      (handle : FileHandle) (cell : Cell E) (s : Sys E)
      → cell.irods_file_handle ≢ none
      → init_lazy E fs handle cell s ≡ ((none, cell), s)
  unfolding init_lazy
  init_lazy_done handle cell s e = ground (arith, e)

  length-take : (n : ℕ) (xs : List ℕ) → length (take n xs) ≤ n
  length-take zero xs = omega arith
  length-take (suc n) [] = omega arith
  length-take (suc n) (x ∷ xs) = omega (arith, length-take n xs)

  -- What package io documents of `ReadAt` and `WriteAt`: they count no more bytes than the buffer has.
  pub record Transfers : Type 0 where
    pub reads_within :
        (r : Reader) (h : E.IrodsHandle) (dest : List ℕ) (offset : ℤ) (w : E.World)
        → (E.read_at r h dest offset w).0.1 ≤ length dest
    pub writes_within :
        (r : Writer) (h : E.IrodsHandle) (bytes : List ℕ) (offset : ℤ) (n : ℕ) (w : E.World)
        → (E.write_at r h bytes offset w).0 ≡ replied n
        → n ≤ length bytes

  read_answers :
      (dest : List ℕ) (offset : ℤ) (handle : FileHandle) (cell : Cell E) (s : Sys E)
      → s.terminated ≡ false
      → let (((result, errno), cell'), s') = read E fs dest offset handle cell s in
        (errno ≡ ok ↔ result ≢ none) × SameMap s s'
  unfolding read
  read_answers dest offset handle cell s t = ground (arith, t, init_lazy-SameMap handle cell s)

  -- Given the server's handle and the reader after opening.
  read_bytes :
      (dest : List ℕ) (offset : ℤ) (handle : FileHandle) (cell : Cell E) (s : Sys E)
      (h : E.IrodsHandle) (r : Reader) (bytes : List ℕ)
      → let ((err, cell1), s1) = init_lazy E fs handle cell s in
        let (dest', n, err) = (E.read_at r h dest offset s1.world).0 in
        cell1.irods_file_handle ≡ some h
        → cell1.reader ≡ some r
        → (read E fs dest offset handle cell s).0.0.0 ≡ some bytes
        → (E.is_read handle.open_mode ≡ true)
          × ((exceeds offset (E.entry_size h s1.world) ≡ true) × (bytes ≡ [])
              ⊎ (exceeds offset (E.entry_size h s1.world) ≡ false) × (bytes ≡ take n dest'))
  unfolding read
  read_bytes dest offset handle cell s h r bytes n m e = ground (arith, n, m, e)

  read_opened :
      (dest : List ℕ) (offset : ℤ) (handle : FileHandle) (cell : Cell E) (s : Sys E)
      (bytes : List ℕ)
      → (read E fs dest offset handle cell s).0.0.0 ≡ some bytes
      → let cell1 = (init_lazy E fs handle cell s).0.1 in
        ((h : E.IrodsHandle) × (cell1.irods_file_handle ≡ some h))
        × ((r : Reader) × (cell1.reader ≡ some r))
  unfolding read
  read_opened dest offset handle cell s bytes e =
      let ((err, cell1), s1) = init_lazy E fs handle cell s in
      elim (Option-cases cell1.irods_file_handle) [
        | inl n ↦ absurd (ground (arith, e, n))
        | inr (h, n) ↦ elim (Option-cases cell1.reader) [
          | inl m ↦ absurd (ground (arith, e, n, m))
          | inr (r, m) ↦ ((h, n), (r, m))
        ]
      ]

  -- Where `Read` answers bytes it answers no error, and otherwise it answers an error. Bytes are answered
  -- only for a mode that asks for reading, never more than the buffer has, and none when the offset is
  -- beyond the size that the server's handle tells after it has been opened. The map of open handles is
  -- left alone.
  pub read_lem :
      (dest : List ℕ) (offset : ℤ) (handle : FileHandle) (cell : Cell E) (s : Sys E)
      → Transfers
      → s.terminated ≡ false
      → let ((err, cell1), s1) = init_lazy E fs handle cell s in
        let (((result, errno), cell'), s') = read E fs dest offset handle cell s in
        (errno ≡ ok ↔ result ≢ none)
        × SameMap s s'
        × ((bytes : List ℕ)
            → result ≡ some bytes
            → (E.is_read handle.open_mode ≡ true)
              × (length bytes ≤ length dest)
              × ((h : E.IrodsHandle) × (cell1.irods_file_handle ≡ some h)
                  × (exceeds offset (E.entry_size h s1.world) ≡ true → bytes ≡ [])))
  read_lem dest offset handle cell s laws t =
      let (a, b) = read_answers dest offset handle cell s t in
      (
        a,
        b,
        λ bytes e.
            let ((h, n), (r, m)) = read_opened dest offset handle cell s bytes e in
            let s1 = (init_lazy E fs handle cell s).1 in
            let (dest', k, err) = (E.read_at r h dest offset s1.world).0 in
            let (mode, c) = read_bytes dest offset handle cell s h r bytes n m e in
            let within = laws.reads_within r h dest offset s1.world in
            (
              mode,
              elim c [
                | inl (x, y) ↦ rw y (omega arith)
                | inr (x, y) ↦ rw y (omega (arith, length-take k dest', within))
              ],
              (h, n, λ x. elim c [ inl (y, z) ↦ z | inr (y, z) ↦ absurd (ground (arith, x, y)) ]),
            ),
      )

  pub read-SameMap :
      (dest : List ℕ) (offset : ℤ) (handle : FileHandle) (cell : Cell E) (s : Sys E)
      → SameMap s (read E fs dest offset handle cell s).1
  unfolding read
  read-SameMap dest offset handle cell s = ground (arith, init_lazy-SameMap handle cell s)

  pub truncate-SameMap :
      (size : ℕ) (handle : FileHandle) (cell : Cell E) (s : Sys E)
      → SameMap s (truncate E fs size handle cell s).1
  unfolding truncate
  truncate-SameMap size handle cell s = ground (arith, init_lazy-SameMap handle cell s)

  pub flush-SameMap :
      (handle : FileHandle) (cell : Cell E) (s : Sys E)
      → SameMap s (flush E fs handle cell s).1 × SameMap s (fsync E fs handle cell s).1
  unfolding flush fsync
  flush-SameMap handle cell s = ground arith

  -- A handle for reading only, which the server opened while the reader could not be made, stays
  -- unusable: the first `Read` answers `EREMOTEIO`, and every later one `EBADFD`, in any state of the
  -- file system, without asking the server again.
  pub failed_reader_stays :
      (dest : List ℕ) (offset : ℤ) (handle : FileHandle) (cell : Cell E) (s : Sys E)
      (h : E.IrodsHandle) (x : E.Err)
      → s.terminated ≡ false
      → cell.irods_file_handle ≡ none
      → cell.reader ≡ none
      → E.is_read_only handle.open_mode ≡ true
      → let (opened, w) = E.open_file handle.path handle.open_mode s.world in
        opened ≡ replied h
        → (E.new_async_reader h (report_access E fs h (record s { world = w })).1.world).0
          ≡ failed x
        → let (((result, errno), cell'), s') = read E fs dest offset handle cell s in
          (errno ≡ eremoteio)
          × ((later : Sys E)
              → later.terminated ≡ false
              → read E fs dest offset handle cell' later ≡ (((none, ebadfd), cell'), later))
  unfolding read init_lazy init_reader_writer
  failed_reader_stays dest offset handle cell s h x t e r m o a =
      (ground (arith, t, e, r, m, o, a), λ later u. ground (arith, t, e, r, m, o, a, u))
