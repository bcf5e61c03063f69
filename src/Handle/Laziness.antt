-- ===== src/Handle/Laziness.antt =====
-- A handle that irods.go makes lazily, against one that it opens at once.
use irodsfs.Base.{◌≡◌, ◌≢◌, ◌↔◌, inl, inr, ℕ, arith, Text, some, none}
use irodsfs.Types.{FileHandle, FileOpenMode}
use irodsfs.Env.{External, Settings, Sys, Cell, Reply-cases}
use irodsfs.Irods.Access.{irods_get_open_flags}
use irodsfs.Irods.Opens.{
  init_reader_writer, report_access, new_file_handle, new_file_handle_lazy, irods_open,
  irods_open_lazy,
}
use irodsfs.Irods.Opens.Laws.{OpenModes}
use irodsfs.Handle.Transfers.{init_lazy}

module _ (E : External) (fs : Settings) where
  -- What package xid documents: drawing an ID asks no server, so that a reader can be made after it
  -- exactly when it can be made before it.
  abbrev pub IdsApart : Type 0
  IdsApart =
      (h : E.IrodsHandle) (w : E.World)
      → (E.new_async_reader h (E.new_id w).1).0 ≡ (E.new_async_reader h w).0

  -- The second result has the parts that the first tells, or an error where it tells one.
  init_after_id :
      (m : FileOpenMode) (h : E.IrodsHandle) (s : Sys E)
      → IdsApart
      → (init_reader_writer E m h (record s { world = (E.new_id s.world).1 })).0
        ≡ (init_reader_writer E m h s).0
  unfolding init_reader_writer
  init_after_id m h s apart = ground (arith, apart h s.world)

  -- The cell that the handle has when it is first used is the one that opening at once would have made
  -- in that state of the server, and opening fails for one exactly when it fails for the other.
  pub irods_open_lazy_lem :
      (path : Text) (flags : ℕ) (s0 s : Sys E) (handle : FileHandle) (cell : Cell E)
      → OpenModes E
      → IdsApart
      → (irods_open_lazy E fs path flags s0).0.0 ≡ some (handle, cell)
      → let ((err, cell'), s') = init_lazy E fs handle cell s in
        let (eager, errno) = (irods_open E fs path flags s).0 in
        (err ≡ none ↔ eager ≢ none)
        × ((g : FileHandle) (c : Cell E)
            → eager ≡ some (g, c)
            → (g.open_mode ≡ handle.open_mode)
              × (cell'.irods_file_handle ≡ c.irods_file_handle)
              × (cell'.reader ≡ c.reader)
              × (cell'.writer ≡ c.writer))
  unfolding irods_open_lazy new_file_handle_lazy irods_open new_file_handle init_lazy
  irods_open_lazy_lem path flags s0 s handle cell laws apart e =
      let mode = irods_get_open_flags flags in
      elim (Reply-cases (E.open_file path mode s.world).0) [
        | inl (x, o) ↦ ground (arith, e, o)
        | inr (h, o) ↦
            let m = laws.opened_mode path mode s.world h o in
            let s1 =
              (report_access E fs h (record s { world = (E.open_file path mode s.world).1 })).1 in
            let i = init_after_id mode h s1 apart in
            elim (Reply-cases (init_reader_writer E mode h s1).0) [
              | inl (x, r) ↦ ground (arith, e, o, m, i, r)
              | inr (rw', r) ↦ ground (arith, e, o, m, i, r)
            ]
      ]
