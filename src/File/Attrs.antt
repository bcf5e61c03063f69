-- ===== src/File/Attrs.antt =====
-- file.go: `Getattr`, `Setattr` and `Truncate` of `File`.
pub mod Laws
use irodsfs.Base.{ℕ, Bool, true, false, Option, none, some, List, [], ◌∷◌, Text, if◌then◌else◌}
use irodsfs.Base.Ints.{int64, differs}
use irodsfs.Types.{is_ok, Errno, ok, enoent, eremoteio, econnaborted, FileHandle}
use irodsfs.Env.{
  External, Settings, Sys, Entry, ◌>>=◌, ◌>>◌, return, return_if, ask, call, read, or_return,
  some_or, unless_terminated, body, get_next_operation_id,
}
use irodsfs.HandleMap.{list_by_path}
use irodsfs.Irods.Attrs.{Attr, irods_stat, irods_getattr, not_found_or_remote}
use irodsfs.File.Paths.{mapped_path}
use irodsfs.Handle.{on_handle}
use irodsfs.Handle.Transfers

module _ (E : External) (fs : Settings) where
  unfoldable pub getattr : Text → Sys E → (Errno × Option Attr) × Sys E
  getattr path = body do
    unless_terminated (econnaborted, none)
    _ ← call get_next_operation_id
    (vpath_entry, irods_path) ← mapped_path E path (eremoteio, none)
    result ← call (irods_getattr E fs irods_path (E.vpath_read_only vpath_entry))
    return result

  -- The loop over the open handles, up to its `break`.
  unfoldable pub first_writable : List FileHandle → Option FileHandle
  first_writable [] = none
  first_writable (handle ∷ handles) =
      let rest = first_writable handles in if E.is_write handle.open_mode then some handle else rest

  -- `if !callFtruncate { ... }`
  unfoldable pub truncate_entry : Entry → ℕ → Sys E → Errno × Sys E
  truncate_entry irods_entry size = body do
    (if differs (int64 size) irods_entry.size
        then (do
          reply ← ask (E.truncate_file irods_entry.path (int64 size))
          _ ← or_return reply (not_found_or_remote E)
          return ok)
        else return ok)

  -- A handle in the map is one that can be called.
  unfoldable pub truncate : Text → ℕ → Sys E → Errno × Sys E
  unfolding first_writable
  truncate path size = body do
    unless_terminated econnaborted
    _ ← call get_next_operation_id
    (vpath_entry, irods_path) ← mapped_path E path eremoteio
    reply ← call (irods_stat E irods_path)
    irods_entry ← or_return reply (not_found_or_remote E)
    handles_opened ← read (λ s. list_by_path s.file_handle_map irods_entry.path)
    elim (first_writable handles_opened) [
      | some handle ↦ do
        errno ← call (on_handle E handle (Transfers.truncate E fs size))
        errno ← some_or errno eremoteio
        return errno
      | none ↦ do errno ← call (truncate_entry irods_entry size); return errno
    ]

  -- The size asked for, if any; with the error, the size that is filled in.
  unfoldable pub setattr : Text → Option ℕ → Sys E → (Errno × Option ℕ) × Sys E
  setattr path in_size = body do
    unless_terminated (econnaborted, none)
    _ ← call get_next_operation_id
    elim in_size [
      | some size ↦ do
        errno ← call (truncate path size)
        (if is_ok errno then return (ok, some size) else return (errno, none))
      | none ↦ return (ok, none)
    ]
