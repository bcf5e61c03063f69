-- ===== src/Handle/Closing/Laws.antt =====
-- What `Release` of filehandle.go leaves behind.
use irodsfs.Base.{
  ◌≡◌, ◌≢◌, ◌⊎◌, inl, inr, true, false, arith, Option, some, none, Option-cases, Bool-cases,
}
use irodsfs.Types.{ok, eremoteio, FileHandle}
use irodsfs.HandleMap.{remove}
use irodsfs.Env.{External, Settings, Sys, Cell}
use irodsfs.Handle.Closing.{end_reader, end_writer, close_func, release}

module _ (E : External) (fs : Settings) where
  end_reader_lem :
      (h : E.IrodsHandle) (cell : Cell E) (s : Sys E)
      → let ((err, cell'), s') = end_reader E fs h cell s in
        (cell'.irods_file_handle ≡ cell.irods_file_handle)
        × (cell'.writer ≡ cell.writer)
        × ((err ≡ none) × (cell'.reader ≡ none) ⊎ (err ≢ none) × (cell' ≡ cell))
        × (s'.file_handle_map ≡ s.file_handle_map)
        × (s'.cells ≡ s.cells)
        × (s'.terminated ≡ s.terminated)
  unfolding end_reader
  end_reader_lem h cell s = ground arith

  end_writer_lem :
      (h : E.IrodsHandle) (cell : Cell E) (s : Sys E)
      → let ((err, cell'), s') = end_writer E fs h cell s in
        (cell'.irods_file_handle ≡ cell.irods_file_handle)
        × (cell'.reader ≡ cell.reader)
        × ((err ≡ none) × (cell'.writer ≡ none) ⊎ (err ≢ none) × (cell' ≡ cell))
        × (s'.file_handle_map ≡ s.file_handle_map)
        × (s'.cells ≡ s.cells)
        × (s'.terminated ≡ s.terminated)
  unfolding end_writer
  end_writer_lem h cell s = ground arith

  close_func_lem :
      (handle : FileHandle) (h : E.IrodsHandle) (s : Sys E)
      → let s' = (close_func E fs handle h s).1 in
        (s'.file_handle_map ≡ remove s.file_handle_map handle.id)
        × (s'.cells ≡ s.cells)
        × (s'.terminated ≡ s.terminated)
  unfolding close_func
  close_func_lem handle h s = ground arith

  pub release_parts :
      (handle : FileHandle) (cell : Cell E) (s : Sys E)
      → let cell' = (release E fs handle cell s).0.1 in
        (cell'.irods_file_handle ≡ cell.irods_file_handle)
        × ((cell'.reader ≡ none) ⊎ (cell'.reader ≡ cell.reader))
        × ((cell'.writer ≡ none) ⊎ (cell'.writer ≡ cell.writer))
  unfolding release
  release_parts handle cell s = elim (Option-cases cell.irods_file_handle) [
    | inl e ↦ ground (arith, e)
    | inr (h, e) ↦
        let r = end_reader E fs h cell s in
        ground (arith, e, end_reader_lem h cell s, end_writer_lem h r.0.1 r.1)
  ]

  -- What a goroutine does when it is started.
  abbrev pub finish : FileHandle → Option (E.IrodsHandle) → Sys E → Sys E
  finish handle none s = s
  finish handle (some h) s = (close_func E fs handle h s).1

  -- Before termination, `Release` answers `OK` or `EREMOTEIO`. When it answers `OK` and the goroutine
  -- that it may start has run, the handle is out of the map of open handles and has neither reader nor
  -- writer left, if the server had opened it. The goroutine is started only for a handle that reads. When
  -- it answers `EREMOTEIO`, no goroutine is started, the map is as before, and the handle keeps the
  -- server's handle.
  pub release_lem :
      (handle : FileHandle) (cell : Cell E) (s : Sys E)
      → s.terminated ≡ false
      → let (((errno, closing), cell'), s') = release E fs handle cell s in
        ((errno ≡ ok)
          × ((finish handle closing s').file_handle_map ≡ remove s.file_handle_map handle.id)
          × ((closing ≢ none → E.is_read_only handle.open_mode ≡ true))
          × (cell.irods_file_handle ≢ none → (cell'.reader ≡ none) × (cell'.writer ≡ none)))
        ⊎ ((errno ≡ eremoteio)
            × (closing ≡ none)
            × (s'.file_handle_map ≡ s.file_handle_map)
            × (cell'.irods_file_handle ≡ cell.irods_file_handle)
            × (cell.irods_file_handle ≢ none))
  unfolding release
  release_lem handle cell s t = elim (Option-cases cell.irods_file_handle) [
    | inl e ↦ ground (arith, e, t)
    | inr (h, e) ↦
        let ((err1, cell1), s1) = end_reader E fs h cell s in
        let ((err2, cell2), s2) = end_writer E fs h cell1 s1 in
        let l1 = end_reader_lem h cell s in
        let l2 = end_writer_lem h cell1 s1 in
        let c = close_func_lem handle h s2 in
        elim (Option-cases err1) [
          | inr (x, f) ↦ ground (arith, e, t, l1, f)
          | inl f ↦ elim (Option-cases err2) [
            | inr (x, g) ↦ ground (arith, e, t, l1, l2, f, g)
            | inl g ↦ elim (Bool-cases (E.is_read_only handle.open_mode)) [
              | inl b ↦ ground (arith, e, t, l1, l2, f, g, b, c)
              | inr b ↦ ground (arith, e, t, l1, l2, f, g, b, c)
            ]
          ]
        ]
  ]
