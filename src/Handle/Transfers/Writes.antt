-- ===== src/Handle/Transfers/Writes.antt =====
-- What writing of filehandle.go answers.
use irodsfs.Base.{
  ◌≡◌, sym, ap, ◌∙◌, ◌≢◌, ◌⊎◌, ◌≤◌, ◌<◌, ◌^◌, ◌%◌, inl, inr, ℕ, true, false, arith, List, Option,
  some, none, Option-cases, length,
}
use irodsfs.Base.Ints.{ℤ, is_negative}
use irodsfs.Types.{ok, eremoteio, FileHandle}
use irodsfs.Env.{External, Settings, Sys, Cell, Writer, Reply-cases, failed, replied}
use irodsfs.Handle.Transfers.{init_lazy, write}
use irodsfs.Handle.Transfers.Laws.{SameMap, Transfers, init_lazy-SameMap}

module _ (E : External) (fs : Settings) where
  -- A call that reaches the writer, by what opening has left: the server's handle and the writer are
  -- there, the mode asks for writing, there are bytes, and the offset is not negative.
  abbrev pub ReachesWriter :
      List ℕ → ℤ → FileHandle → (Option E.Err × Cell E) → E.IrodsHandle → Writer → Type 0
  ReachesWriter bytes offset handle (err, cell1) h w =
      (err ≡ none)
      × (cell1.irods_file_handle ≡ some h)
      × (E.is_write handle.open_mode ≡ true)
      × (cell1.writer ≡ some w)
      × (length bytes ≢ 0)
      × (is_negative offset ≡ false)

  -- Given the server's handle and the writer after opening, and what the writer answers.
  write_written :
      (bytes : List ℕ) (offset : ℤ) (handle : FileHandle) (cell : Cell E) (s : Sys E)
      (h : E.IrodsHandle) (w : Writer) (k : ℕ)
      → let ((err, cell1), s1) = init_lazy E fs handle cell s in
        cell1.irods_file_handle ≡ some h
        → cell1.writer ≡ some w
        → (E.write_at w h bytes offset s1.world).0 ≡ replied k
        → let (n, errno) = (write E fs bytes offset handle cell s).0.0 in
          (n ≡ 0)
          ⊎ (errno ≡ ok) × ReachesWriter bytes offset handle (err, cell1) h w × (n ≡ k % 2 ^ 32)
  unfolding write
  write_written bytes offset handle cell s h w k n m a = ground (arith, n, m, a)

  write_failed :
      (bytes : List ℕ) (offset : ℤ) (handle : FileHandle) (cell : Cell E) (s : Sys E)
      (h : E.IrodsHandle) (w : Writer) (x : E.Err)
      → let ((err, cell1), s1) = init_lazy E fs handle cell s in
        cell1.irods_file_handle ≡ some h
        → cell1.writer ≡ some w
        → (E.write_at w h bytes offset s1.world).0 ≡ failed x
        → (write E fs bytes offset handle cell s).0.0.0 ≡ 0
  unfolding write
  write_failed bytes offset handle cell s h w x n m a = ground (arith, n, m, a)

  write_unopened :
      (bytes : List ℕ) (offset : ℤ) (handle : FileHandle) (cell : Cell E) (s : Sys E)
      → let cell1 = (init_lazy E fs handle cell s).0.1 in
        (cell1.irods_file_handle ≡ none) ⊎ (cell1.writer ≡ none)
        → (write E fs bytes offset handle cell s).0.0.0 ≡ 0
  unfolding write
  write_unopened bytes offset handle cell s n = ground (arith, n)

  pub write-SameMap :
      (bytes : List ℕ) (offset : ℤ) (handle : FileHandle) (cell : Cell E) (s : Sys E)
      → let (((n, errno), cell'), s') = write E fs bytes offset handle cell s in
        SameMap E fs s s' × ((errno ≡ ok) ⊎ (n ≡ 0))
  unfolding write
  write-SameMap bytes offset handle cell s = ground (arith, init_lazy-SameMap E fs handle cell s)

  write_reached :
      (bytes : List ℕ) (offset : ℤ) (handle : FileHandle) (cell : Cell E) (s : Sys E)
      (h : E.IrodsHandle) (w : Writer)
      → let (opened, s1) = init_lazy E fs handle cell s in
        s.terminated ≡ false
        → ReachesWriter bytes offset handle opened h w
        → let r = (write E fs bytes offset handle cell s).0.0 in
          ((k : ℕ) → (E.write_at w h bytes offset s1.world).0 ≡ replied k → r ≡ (k % 2 ^ 32, ok))
          × ((x : E.Err) → (E.write_at w h bytes offset s1.world).0 ≡ failed x → r ≡ (0, eremoteio))
  unfolding write
  write_reached bytes offset handle cell s h w t (o, n, m, e, l, i) =
      (λ k a. ground (arith, t, o, n, m, e, l, i, a), λ x a. ground (arith, t, o, n, m, e, l, i, a))

  write_answers :
      (bytes : List ℕ) (offset : ℤ) (handle : FileHandle) (cell : Cell E) (s : Sys E)
      (h : E.IrodsHandle) (w : Writer)
      → let (opened, s1) = init_lazy E fs handle cell s in
        Transfers E fs
        → length bytes < 2 ^ 32
        → s.terminated ≡ false
        → ReachesWriter bytes offset handle opened h w
        → let r = (write E fs bytes offset handle cell s).0.0 in
          ((k : ℕ) → (E.write_at w h bytes offset s1.world).0 ≡ replied k → r ≡ (k, ok))
          × ((x : E.Err) → (E.write_at w h bytes offset s1.world).0 ≡ failed x → r ≡ (0, eremoteio))
  write_answers bytes offset handle cell s h w laws l t reaches =
      let s1 = (init_lazy E fs handle cell s).1 in
      let (counts, fails) = write_reached bytes offset handle cell s h w t reaches in
      (
        λ k a.
            let within = laws.writes_within w h bytes offset k s1.world a in
            let small : k % 2 ^ 32 ≡ k = omega (arith, within, l) in
            counts k a ∙ ap (λ n. (n, ok)) small,
        fails,
      )

  -- A count other than zero comes from the writer.
  write_counted :
      (bytes : List ℕ) (offset : ℤ) (handle : FileHandle) (cell : Cell E) (s : Sys E)
      → Transfers E fs
      → length bytes < 2 ^ 32
      → let (opened, s1) = init_lazy E fs handle cell s in
        let n = (write E fs bytes offset handle cell s).0.0.0 in
        (n ≤ length bytes)
        × (n ≢ 0
            → (h : E.IrodsHandle) × (w : Writer) × ReachesWriter bytes offset handle opened h w
              × ((E.write_at w h bytes offset s1.world).0 ≡ replied n))
  write_counted bytes offset handle cell s laws l =
      let ((err, cell1), s1) = init_lazy E fs handle cell s in
      elim (Option-cases cell1.irods_file_handle) [
        | inl n ↦
            let u = write_unopened bytes offset handle cell s (inl n) in
            (omega (arith, u), λ p. absurd (p u))
        | inr (h, n) ↦ elim (Option-cases cell1.writer) [
          | inl m ↦
              let u = write_unopened bytes offset handle cell s (inr m) in
              (omega (arith, u), λ p. absurd (p u))
          | inr (w, m) ↦ elim (Reply-cases (E.write_at w h bytes offset s1.world).0) [
            | inl (x, a) ↦
                let u = write_failed bytes offset handle cell s h w x n m a in
                (omega (arith, u), λ p. absurd (p u))
            | inr (k, a) ↦
                let within = laws.writes_within w h bytes offset k s1.world a in
                elim (write_written bytes offset handle cell s h w k n m a) [
                  | inl u ↦ (omega (arith, u), λ p. absurd (p u))
                  | inr (o, reaches, u) ↦
                      let n = (write E fs bytes offset handle cell s).0.0.0 in
                      let v : n ≡ k = omega (arith, u, within, l) in
                      (omega (arith, v, within), λ p. (h, w, reaches, a ∙ ap replied (sym v)))
                ]
          ]
        ]
      ]

  -- Before termination, `Write` of less than 4 GiB answers, whenever it reaches the writer, exactly the
  -- count that the writer answers and `OK`, or zero and `EREMOTEIO` if the writer fails. In every case, after
  -- termination too, the count is at most what was given, an error comes with zero, a count other than
  -- zero comes from a call that reached the writer and is what that answered, and the map of open handles
  -- is left alone.
  pub write_lem :
      (bytes : List ℕ) (offset : ℤ) (handle : FileHandle) (cell : Cell E) (s : Sys E)
      → Transfers E fs
      → length bytes < 2 ^ 32
      → let (opened, s1) = init_lazy E fs handle cell s in
        let ((result, cell'), s') = write E fs bytes offset handle cell s in
        let (n, errno) = result in
        SameMap E fs s s'
        × ((errno ≡ ok) ⊎ (n ≡ 0))
        × (n ≤ length bytes)
        × (n ≢ 0
            → (h : E.IrodsHandle) × (w : Writer) × ReachesWriter bytes offset handle opened h w
              × ((E.write_at w h bytes offset s1.world).0 ≡ replied n))
        × ((h : E.IrodsHandle) (w : Writer)
            → s.terminated ≡ false
            → ReachesWriter bytes offset handle opened h w
            → ((k : ℕ) → (E.write_at w h bytes offset s1.world).0 ≡ replied k → result ≡ (k, ok))
              × ((x : E.Err)
                  → (E.write_at w h bytes offset s1.world).0 ≡ failed x
                  → result ≡ (0, eremoteio)))
  write_lem bytes offset handle cell s laws l =
      let (same, z) = write-SameMap bytes offset handle cell s in
      let (within, reached) = write_counted bytes offset handle cell s laws l in
      (same, z, within, reached, λ h w. write_answers bytes offset handle cell s h w laws l)
