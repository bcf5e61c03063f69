-- ===== src/Handle/Closing.antt =====
-- filehandle.go: `Release`. What it leaves to a goroutine is a step of its own, `close_func`.
pub mod Laws
use irodsfs.Base.{Option, none, some, if◌then◌else◌}
use irodsfs.Types.{Errno, ok, eremoteio, econnaborted, FileHandle}
use irodsfs.HandleMap.{remove}
use irodsfs.Env.{
  External, Settings, Sys, Cell, Exit, returned, running, ◌>>=◌, ◌>>◌, return, ask, call, observe,
  nil_or, unless_terminated, body,
}

module _ (E : External) (fs : Settings) where
  -- `handle.fs.fileHandleMap.Remove(handle.GetID())`
  abbrev pub remove_handle : FileHandle → Sys E → Unit {0} × Sys E
  remove_handle handle s = (tt, record s { file_handle_map = remove s.file_handle_map handle.id })

  -- `if handle.instanceReportClient != nil { ... }`, whose error is only logged.
  abbrev pub report_done : E.IrodsHandle → Sys E → Unit {0} × Sys E
  report_done irods_handle s =
      if fs.has_report_client
      then (tt, record s { world = (E.done_file_access irods_handle s.world).1 })
      else (tt, s)

  -- The errors are only logged.
  unfoldable pub close_func : FileHandle → E.IrodsHandle → Sys E → Unit {0} × Sys E
  close_func handle irods_handle = body do
    call (remove_handle handle)
    call (report_done irods_handle)
    _ ← ask (E.close irods_handle)
    return tt

  -- `if handle.reader != nil { ... }`, with the error, if any.
  unfoldable pub end_reader : E.IrodsHandle → Cell E → Sys E → (Option (E.Err) × Cell E) × Sys E
  end_reader irods_handle cell = body (elim cell.reader [
    | none ↦ return (none, cell)
    | some reader ↦ do
      ask (λ w. (tt, E.release_reader reader irods_handle w))
      err ← observe (E.reader_error reader irods_handle)
      nil_or err (λ err. (some err, cell))
      return (none, record cell { reader = none })
  ])

  -- `if handle.writer != nil { ... }`, with the error, if any.
  unfoldable pub end_writer : E.IrodsHandle → Cell E → Sys E → (Option (E.Err) × Cell E) × Sys E
  end_writer irods_handle cell = body (elim cell.writer [
    | none ↦ return (none, cell)
    | some writer ↦ do
      ask (λ w. (tt, E.release_writer writer irods_handle w))
      err ← observe (E.writer_error writer irods_handle)
      nil_or err (λ err. (some err, cell))
      return (none, record cell { writer = none })
  ])

  -- With the error, the server's handle that a goroutine is started to close, if any.
  unfoldable pub release :
      FileHandle → Cell E → Sys E → ((Errno × Option (E.IrodsHandle)) × Cell E) × Sys E
  release handle cell = body do
    unless_terminated ((econnaborted, none), cell)
    elim cell.irods_file_handle [
      | none ↦ do call (remove_handle handle); return ((ok, none), cell)
      | some irods_handle ↦ do
        (err, cell1) ← call (end_reader irods_handle cell)
        nil_or err (λ err. ((eremoteio, none), cell1))
        (err, cell2) ← call (end_writer irods_handle cell1)
        nil_or err (λ err. ((eremoteio, none), cell2))
        (if E.is_read_only handle.open_mode
            then return ((ok, some irods_handle), cell2)
            else (do call (close_func handle irods_handle); return ((ok, none), cell2)))
    ]
