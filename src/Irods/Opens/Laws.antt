-- ===== src/Irods/Opens/Laws.antt =====
-- What irods.go makes of open flags, and the readers and writers of the handles that it opens.
use irodsfs.Base.{◌≡◌, ◌≢◌, ◌↔◌, ◌⊎◌, inl, inr, ℕ, true, false, arith, some, none, Text}
use irodsfs.Types.{
  ok, FileOpenMode, read_only, write_only, append, write_truncate, read_write, FileHandle,
}
use irodsfs.Env.{
  External, Settings, Sys, Cell, Reader, nil_reader, Writer, nil_writer, Reply-cases, replied,
}
use irodsfs.Irods.Access.{irods_get_open_flags, has_flag, o_wronly, o_rdwr, o_append, o_trunc}
use irodsfs.Irods.Opens.{init_reader_writer, new_file_handle, irods_open, report_access}

-- What go-irodsclient documents of the tests on open modes, and of the mode of an opened handle.
pub record OpenModes (E : External) : Type 0 where
  pub read_only_iff : (m : FileOpenMode) → E.is_read_only m ≡ true ↔ m ≡ read_only
  pub write_only_iff :
      (m : FileOpenMode)
      → E.is_write_only m ≡ true ↔ (m ≡ write_only) ⊎ (m ≡ append) ⊎ (m ≡ write_truncate)
  pub opened_mode :
      (path : Text) (m : FileOpenMode) (w : E.World) (h : E.IrodsHandle)
      → (E.open_file path m w).0 ≡ replied h
      → E.handle_open_mode h ≡ m

-- The open mode of each combination of the flags: reading only without `O_WRONLY` and `O_RDWR`;
-- appending or truncating only with `O_WRONLY`, where appending goes first; and reading and writing
-- with `O_RDWR` alone.
pub irods_get_open_flags_lem :
    (flags : ℕ)
    → let mode = irods_get_open_flags flags in
      (mode ≡ read_only ↔ (has_flag flags o_wronly ≡ false) × (has_flag flags o_rdwr ≡ false))
      × (mode ≡ read_write ↔ (has_flag flags o_wronly ≡ false) × (has_flag flags o_rdwr ≡ true))
      × (mode ≡ append ↔ (has_flag flags o_wronly ≡ true) × (has_flag flags o_append ≡ true))
      × (mode ≡ write_truncate
          ↔ (has_flag flags o_wronly ≡ true)
            × (has_flag flags o_append ≡ false)
            × (has_flag flags o_trunc ≡ true))
unfolding irods_get_open_flags
irods_get_open_flags_lem flags = ground arith

-- The flags ask for writing only.
abbrev pub WriteOnly : FileOpenMode → Type 0
WriteOnly m = (m ≡ write_only) ⊎ (m ≡ append) ⊎ (m ≡ write_truncate)

pub init_reader_writer_lem :
    (E : External) (m : FileOpenMode) (h : E.IrodsHandle) (s : Sys E) (reader : Reader)
    (writer : Writer)
    → OpenModes E
    → (init_reader_writer E m h s).0 ≡ replied (reader, writer)
    → (writer ≡ nil_writer ↔ m ≡ read_only) × (reader ≡ nil_reader ↔ WriteOnly m)
unfolding init_reader_writer
init_reader_writer_lem E m h s reader writer laws e =
    ground (arith, e, laws.read_only_iff m, laws.write_only_iff m)

pub new_file_handle_lem :
    (E : External) (h : E.IrodsHandle) (s : Sys E) (handle : FileHandle) (cell : Cell E)
    → OpenModes E
    → (new_file_handle E h s).0 ≡ replied (handle, cell)
    → (handle.open_mode ≡ E.handle_open_mode h)
      × (cell.irods_file_handle ≡ some h)
      × (cell.writer ≡ some nil_writer ↔ E.handle_open_mode h ≡ read_only)
      × (cell.reader ≡ some nil_reader ↔ WriteOnly (E.handle_open_mode h))
unfolding new_file_handle
new_file_handle_lem E h s handle cell laws e =
    let m = E.handle_open_mode h in
    let s1 = record s { world = (E.new_id s.world).1 } in
    elim (Reply-cases (init_reader_writer E m h s1).0) [
      | inl (x, i) ↦ absurd (ground (arith, e, i))
      | inr ((reader, writer), i) ↦
          let l = init_reader_writer_lem E m h s1 reader writer laws i in ground (arith, e, i, l)
    ]

-- A handle that `IRODSOpen` answers has the mode of the flags and the server's handle; it can be
-- written to exactly when the flags ask for writing, and read from exactly when they ask for reading;
-- and no handle is answered with an error.
pub irods_open_lem :
    (E : External) (fs : Settings) (path : Text) (flags : ℕ) (s : Sys E)
    → OpenModes E
    → ((irods_open E fs path flags s).0.1 ≡ ok ↔ (irods_open E fs path flags s).0.0 ≢ none)
      × ((handle : FileHandle) (cell : Cell E)
          → (irods_open E fs path flags s).0.0 ≡ some (handle, cell)
          → (handle.open_mode ≡ irods_get_open_flags flags)
            × (cell.irods_file_handle ≢ none)
            × (cell.writer ≡ some nil_writer
                ↔ (has_flag flags o_wronly ≡ false) × (has_flag flags o_rdwr ≡ false))
            × (cell.reader ≡ some nil_reader ↔ has_flag flags o_wronly ≡ true))
unfolding irods_open
irods_open_lem E fs path flags s laws =
    let mode = irods_get_open_flags flags in
    let flag = irods_get_open_flags_lem flags in
    elim (Reply-cases (E.open_file path mode s.world).0) [
      | inl (x, e) ↦ ground (arith, e)
      | inr (h, e) ↦
          let m = laws.opened_mode path mode s.world h e in
          let s1 =
            (report_access E fs h (record s { world = (E.open_file path mode s.world).1 })).1 in
          elim (Reply-cases (new_file_handle E h s1).0) [
            | inl (x, n) ↦ ground (arith, e, n)
            | inr ((handle, cell), n) ↦
                let l = new_file_handle_lem E h s1 handle cell laws n in
                ground (arith, e, m, n, l, flag)
          ]
    ]
