-- ===== src/Handle/Transfers.antt =====
-- filehandle.go: opening a handle on the server when it is first used, and reading, writing,
-- truncating and flushing.
pub mod Laws
pub mod Writes
use irodsfs.Base.{
  ℕ, ◌%◌, ◌^◌, Bool, true, false, not, Option, none, some, List, [], ◌==◌, length, take,
}
use irodsfs.Base.Ints.{ℤ, int64, is_negative, exceeds}
use irodsfs.Types.{Errno, ok, eremoteio, ebadfd, econnaborted, FileHandle}
use irodsfs.Env.{
  External, Settings, Sys, Cell, Exit, returned, running, ◌>>=◌, ◌>>◌, return, return_if, ask, call,
  observe, or_return, some_or, nil_or, unless_terminated, body,
}
use irodsfs.Irods.Opens.{init_reader_writer, report_access}

module _ (E : External) (fs : Settings) where
  -- The error, if any. The server's handle stays when the reader cannot be made.
  unfoldable pub init_lazy : FileHandle → Cell E → Sys E → (Option (E.Err) × Cell E) × Sys E
  init_lazy handle cell = body (elim cell.irods_file_handle [
    | some irods_file_handle ↦ return (none, cell)
    | none ↦ do
      reply ← ask (E.open_file handle.path handle.open_mode)
      irods_handle ← or_return reply (λ err. (some err, cell))
      call (report_access E fs irods_handle)
      reply ← call (init_reader_writer E handle.open_mode irods_handle)
      (reader, writer) ←
          or_return reply (λ err. (some err, record cell { irods_file_handle = some irods_handle }))
      return (
        none,
        record cell {
          irods_file_handle = some irods_handle;
          reader = some reader;
          writer = some writer;
        },
      )
  ])

  -- `err != nil && err != io.EOF`
  abbrev pub read_failed : Option (E.Err) → Bool
  read_failed none = false
  read_failed (some err) = not (E.is_eof err)

  -- The bytes that are read; `none` for a `nil` result.
  unfoldable pub read :
      List ℕ → ℤ → FileHandle → Cell E → Sys E → ((Option (List ℕ) × Errno) × Cell E) × Sys E
  read dest offset handle cell = body do
    unless_terminated ((none, econnaborted), cell)
    (err, cell') ← call (init_lazy handle cell)
    nil_or err (λ err. ((none, eremoteio), cell'))
    irods_handle ← some_or cell'.irods_file_handle ((none, ebadfd), cell')
    return_if (not (E.is_read handle.open_mode)) ((none, ebadfd), cell')
    reader ← some_or cell'.reader ((none, ebadfd), cell')
    size ← observe (E.entry_size irods_handle)
    return_if (exceeds offset size) ((some [], ok), cell')
    (dest', read_len, err) ← ask (E.read_at reader irods_handle dest offset)
    return_if (read_failed err) ((none, eremoteio), cell')
    return ((some (take read_len dest'), ok), cell')

  unfoldable pub write : List ℕ → ℤ → FileHandle → Cell E → Sys E → ((ℕ × Errno) × Cell E) × Sys E
  write bytes offset handle cell = body do
    unless_terminated ((0, econnaborted), cell)
    (err, cell') ← call (init_lazy handle cell)
    nil_or err (λ err. ((0, eremoteio), cell'))
    irods_handle ← some_or cell'.irods_file_handle ((0, ebadfd), cell')
    return_if (not (E.is_write handle.open_mode)) ((0, ebadfd), cell')
    writer ← some_or cell'.writer ((0, ebadfd), cell')
    return_if (length bytes == 0) ((0, ok), cell')
    return_if (is_negative offset) ((0, ebadfd), cell')
    reply ← ask (E.write_at writer irods_handle bytes offset)
    write_len ← or_return reply (λ err. ((0, eremoteio), cell'))
    return ((write_len % 2 ^ 32, ok), cell')

  unfoldable pub truncate : ℕ → FileHandle → Cell E → Sys E → (Errno × Cell E) × Sys E
  truncate size handle cell = body do
    unless_terminated (econnaborted, cell)
    (err, cell') ← call (init_lazy handle cell)
    nil_or err (λ err. (eremoteio, cell'))
    irods_handle ← some_or cell'.irods_file_handle (ebadfd, cell')
    return_if (not (E.is_write handle.open_mode)) (ebadfd, cell')
    reply ← ask (E.truncate irods_handle (int64 size))
    _ ← or_return reply (λ err. (eremoteio, cell'))
    return (ok, cell')

  unfoldable pub flush : FileHandle → Cell E → Sys E → (Errno × Cell E) × Sys E
  flush handle cell = body do
    unless_terminated (econnaborted, cell)
    irods_handle ← some_or cell.irods_file_handle (ok, cell)
    writer ← some_or cell.writer (ok, cell)
    reply ← ask (E.flush writer irods_handle)
    _ ← or_return reply (λ err. (eremoteio, cell))
    return (ok, cell)

  unfoldable pub fsync : FileHandle → Cell E → Sys E → (Errno × Cell E) × Sys E
  fsync handle cell = body do
    unless_terminated (econnaborted, cell)
    irods_handle ← some_or cell.irods_file_handle (ok, cell)
    writer ← some_or cell.writer (ok, cell)
    reply ← ask (E.flush writer irods_handle)
    _ ← or_return reply (λ err. (eremoteio, cell))
    return (ok, cell)
