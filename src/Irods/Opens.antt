-- ===== src/Irods/Opens.antt =====
-- The calls of irods.go that open files, and the handles that filehandle.go makes for them. A handle
-- is its fixed fields and the cell of those that change. The caller stores the cell.
pub mod Laws
use irodsfs.Base.{ℕ, Bool, true, false, Option, none, some, [], Text, if◌then◌else◌}
use irodsfs.Types.{Errno, ok, enoent, eremoteio, FileOpenMode, FileHandle}
use irodsfs.Env.{
  External, Settings, Sys, Cell, Reader, nil_reader, sync_reader, async_cache_reader, Writer,
  nil_writer, sync_writer, async_buffered_writer, Reply, failed, replied, M, Exit, returned,
  running, ◌>>=◌, ◌>>◌, return, ask, call, or_return, body,
}
use irodsfs.Irods.Access.{irods_get_acl, irods_get_open_flags}
use irodsfs.Irods.Attrs.{Attr, not_found_or_remote, set_attr_out_for_irods_entry}

module _ (E : External) where
  -- The `reader` and the `writer` of a handle on the server's handle. Making the reader may fail.
  unfoldable pub init_reader_writer :
      FileOpenMode → E.IrodsHandle → Sys E → Reply (E.Err) (Reader × Writer) × Sys E
  init_reader_writer open_mode irods_file_handle = body do
    (if E.is_read_only open_mode
        then (do
          reply ← ask (E.new_async_reader irods_file_handle)
          or_return reply failed
          return (replied (async_cache_reader, nil_writer)))
        else if E.is_write_only open_mode
        then return (replied (nil_reader, async_buffered_writer))
        else return (replied (sync_reader, sync_writer)))

  unfoldable pub new_file_handle :
      E.IrodsHandle → Sys E → Reply (E.Err) (FileHandle × Cell E) × Sys E
  new_file_handle irods_file_handle = body do
    id ← ask E.new_id
    reply ← call (init_reader_writer (E.handle_open_mode irods_file_handle) irods_file_handle)
    (reader, writer) ← or_return reply failed
    return (
        replied (
          record {
            id = id;
            path = E.entry_path irods_file_handle;
            open_mode = E.handle_open_mode irods_file_handle;
          },
          record {
            file = none;
            irods_file_handle = some irods_file_handle;
            reader = some reader;
            writer = some writer;
            locks = [];
          },
        ))

  -- It never fails.
  unfoldable pub new_file_handle_lazy : Text → FileOpenMode → Sys E → (FileHandle × Cell E) × Sys E
  new_file_handle_lazy path open_mode = body do
    id ← ask E.new_id
    return (
      record { id = id; path = path; open_mode = open_mode },
      record { file = none; irods_file_handle = none; reader = none; writer = none; locks = [] },
    )

module _ (E : External) (fs : Settings) where
  -- `if fs.instanceReportClient != nil { ... }`
  abbrev pub report_access : E.IrodsHandle → Sys E → Unit {0} × Sys E
  report_access handle s =
      if fs.has_report_client
      then (tt, record s { world = E.start_file_access handle s.world })
      else (tt, s)

  unfoldable pub irods_create :
      Text → ℕ → Sys E → (ℕ × Option (FileHandle × Cell E) × Errno × Option Attr) × Sys E
  irods_create path flags = body do
    reply ← ask (E.create_file path (irods_get_open_flags flags))
    handle ← or_return reply (λ err. (0, none, eremoteio, none))
    reply ← ask (E.stat path)
    entry ← or_return reply (λ err. (0, none, eremoteio, none))
    call (report_access handle)
    reply ← call (new_file_handle E handle)
    file_handle ← or_return reply (λ err. (0, none, eremoteio, none))
    mode ← call (irods_get_acl E fs entry false)
    attr ← call (set_attr_out_for_irods_entry E fs entry mode)
    return (entry.id, some file_handle, ok, some attr)

  unfoldable pub irods_open : Text → ℕ → Sys E → (Option (FileHandle × Cell E) × Errno) × Sys E
  irods_open path flags = body do
    reply ← ask (E.open_file path (irods_get_open_flags flags))
    handle ← or_return reply (λ err. (none, not_found_or_remote E err))
    call (report_access handle)
    reply ← call (new_file_handle E handle)
    file_handle ← or_return reply (λ err. (none, eremoteio))
    return (some file_handle, ok)

  unfoldable pub irods_open_lazy : Text → ℕ → Sys E → (Option (FileHandle × Cell E) × Errno) × Sys E
  irods_open_lazy path flags = body do
    file_handle ← call (new_file_handle_lazy E path (irods_get_open_flags flags))
    return (some file_handle, ok)
