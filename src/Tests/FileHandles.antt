-- ===== src/Tests/FileHandles.antt =====
-- The methods of filehandle.go, run on the small server.
use irodsfs.Base.{
  ◌≡◌, ◌≢◌, ◌↔◌, ◌⊎◌, ◌≤◌, refl, ℕ, true, false, arith, none, some, List, [], ◌∷◌, codes, Text,
  length,
}
use irodsfs.Base.Ints.{pos, exceeds}
use irodsfs.Base.Dict.{lookup, insert, contains, IsRange}
use irodsfs.Types.{ok, eremoteio, FileHandle, read_only, write_only}
use irodsfs.Env.{External, Sys, Cell, file_node, Writer, failed, replied}
use irodsfs.HandleMap.{remove, get, list_by_path}
use irodsfs.HandleMap.Consistency.{empty-IsConsistent}
use irodsfs.Irods.Opens.{irods_open, irods_open_lazy, new_file_handle_lazy}
use irodsfs.Locks.{FileHandleLocalLock, f_wrlck, overlap_range, lock_loop}
use irodsfs.VPath.{ensure_vpath_entry_is_irods_entry}
use irodsfs.Irods.Access.{irods_get_open_flags}
use irodsfs.Handle.{on_handle}
use irodsfs.Handle.Transfers.{init_lazy, read, write}
use irodsfs.Handle.Transfers.Laws.{SameMap, Transfers, read_lem}
use irodsfs.Handle.Transfers.Writes.{ReachesWriter, write_lem}
use irodsfs.Handle.Nodes
use irodsfs.Handle.Closing.{release}
use irodsfs.Handle.Closing.Laws.{release_lem, finish}
use irodsfs.Handle.LockRequests.{FileLock, get_local_lock, set_local_lock}
use irodsfs.Handle.LockRequests.Laws.{get-set_local_lock}
use irodsfs.Handle.Laziness.{irods_open_lazy_lem}
use irodsfs.Handle.Sessions.{release-open_file}
use irodsfs.Handle.States.{
  WellFormed, Reachable, lazy, next, sets_file, setattrs, Reachable-WellFormed,
}
use irodsfs.File.Opens.{open_file}
use irodsfs.Tests.Server.{refused, server, settings, start}
use irodsfs.Tests.Irods.{server-OpenModes}
use irodsfs.Tests.Maps.{keys-IsRange}

abbrev path : Text
path = codes "/m/f"

abbrev pub reading : FileHandle
reading = record { id = codes "h1"; path = path; open_mode = read_only }

abbrev writing : FileHandle
writing = record { id = codes "h1"; path = path; open_mode = write_only }

abbrev fresh : Cell server
fresh = record { file = none; irods_file_handle = none; reader = none; writer = none; locks = [] }

abbrev buffer : List ℕ
buffer = 0 ∷ 0 ∷ []

abbrev used : Cell server
used = (read server settings buffer (pos 0) reading fresh start).0.1

-- The handle after `SetFile`, and after a change of its size.
abbrev filed : Cell server
filed = record fresh { file = some (file_node 2 path) }

abbrev resized : Cell server
resized = (Nodes.setattr server settings (some 3) reading filed start).0.1

resized-Reachable : Reachable server settings reading resized
unfolding new_file_handle_lazy
resized-Reachable =
    next (next (lazy path read_only start) (sets_file (some (file_node 2 path)) fresh))
      (setattrs (some 3) filed start)

Reachable-WellFormed_example : WellFormed server settings reading resized
Reachable-WellFormed_example =
    Reachable-WellFormed server settings server-OpenModes resized-Reachable

release_lem_example :
    let (((errno, closing), cell'), s') = release server settings reading used start in
    ((errno ≡ ok)
      × ((finish server settings reading closing s').file_handle_map
          ≡ remove start.file_handle_map reading.id)
      × ((closing ≢ none → server.is_read_only reading.open_mode ≡ true))
      × (used.irods_file_handle ≢ none → (cell'.reader ≡ none) × (cell'.writer ≡ none)))
    ⊎ ((errno ≡ eremoteio)
        × (closing ≡ none)
        × (s'.file_handle_map ≡ start.file_handle_map)
        × (cell'.irods_file_handle ≡ used.irods_file_handle)
        × (used.irods_file_handle ≢ none))
release_lem_example = release_lem server settings reading used start refl

server-Transfers : Transfers server settings
server-Transfers = record {
  reads_within = λ r h dest offset w. omega arith;
  writes_within = λ r h bytes offset n w e. ground (arith, e);
}

read_lem_example :
    let ((err, cell1), s1) = init_lazy server settings reading fresh start in
    let (((result, errno), cell'), s') = read server settings buffer (pos 40) reading fresh start in
    (errno ≡ ok ↔ result ≢ none)
    × SameMap server settings start s'
    × ((bytes : List ℕ)
        → result ≡ some bytes
        → (server.is_read reading.open_mode ≡ true)
          × (length bytes ≤ length buffer)
          × ((h : server.IrodsHandle) × (cell1.irods_file_handle ≡ some h)
              × (exceeds (pos 40) (server.entry_size h s1.world) ≡ true → bytes ≡ [])))
read_lem_example =
    read_lem server settings buffer (pos 40) reading fresh start server-Transfers refl

write_lem_example :
    let (opened, s1) = init_lazy server settings writing fresh start in
    let ((result, cell'), s') = write server settings buffer (pos 3) writing fresh start in
    let (n, errno) = result in
    SameMap server settings start s'
    × ((errno ≡ ok) ⊎ (n ≡ 0))
    × (n ≤ length buffer)
    × (n ≢ 0
        → (h : server.IrodsHandle) × (w : Writer) × ReachesWriter server settings buffer
            (pos 3)
            writing
            opened
            h
            w
          × ((server.write_at w h buffer (pos 3) s1.world).0 ≡ replied n))
    × ((h : server.IrodsHandle) (w : Writer)
        → start.terminated ≡ false
        → ReachesWriter server settings buffer (pos 3) writing opened h w
        → ((k : ℕ) → (server.write_at w h buffer (pos 3) s1.world).0 ≡ replied k → result ≡ (k, ok))
          × ((x : server.Err)
              → (server.write_at w h buffer (pos 3) s1.world).0 ≡ failed x
              → result ≡ (0, eremoteio)))
write_lem_example =
    write_lem server settings buffer (pos 3) writing fresh start server-Transfers (omega arith)

irods_open_lazy_lem_example :
    let ((err, cell'), s') = init_lazy server settings reading fresh start in
    let (eager, errno) = (irods_open server settings path 0 start).0 in
    (err ≡ none ↔ eager ≢ none)
    × ((g : FileHandle) (c : Cell server)
        → eager ≡ some (g, c)
        → (g.open_mode ≡ reading.open_mode)
          × (cell'.irods_file_handle ≡ c.irods_file_handle)
          × (cell'.reader ≡ c.reader)
          × (cell'.writer ≡ c.writer))
unfolding irods_open_lazy new_file_handle_lazy irods_get_open_flags
irods_open_lazy_lem_example =
    irods_open_lazy_lem server settings path 0 start start reading fresh server-OpenModes
      (λ h w. refl) refl

-- The small server where no reader can be made.
abbrev readerless : External
readerless = record server { new_async_reader = λ h w. (failed refused, w) }

abbrev readerless_start : Sys readerless
readerless_start = record {
  terminated = false;
  operation_id_current = 0;
  file_handle_map = start.file_handle_map;
  cells = [];
  world = start.world;
}

abbrev fresh_readerless : Cell readerless
fresh_readerless = record {
  file = none;
  irods_file_handle = none;
  reader = none;
  writer = none;
  locks = [];
}

abbrev whole : FileLock
whole = record { start = 0; end = 9; typ = f_wrlck; pid = 7 }

abbrev locked : Cell server
locked = (set_local_lock server settings [] whole reading fresh start).0.1

locked-IsRange : IsRange (codes "h1" ∷ []) locked.locks
unfolding set_local_lock lock_loop insert contains
locked-IsRange = keys-IsRange locked.locks (refl, tt)

get-set_local_lock_example :
    (k : Text) × (h : FileHandleLocalLock) × (lookup k locked.locks ≡ some h)
    × (overlap_range h.start h.end 0 9 ≡ true)
    × ((get_local_lock server settings (codes "h1" ∷ []) whole reading locked start).0.0
        ≡ (ok, some (record { start = h.start; end = h.end; typ = h.lock_type; pid = h.pid })))
unfolding set_local_lock lock_loop
get-set_local_lock_example =
    get-set_local_lock server settings [] (codes "h1" ∷ []) whole whole reading fresh start start
      refl refl (λ e. cc) (omega arith) refl refl refl locked-IsRange

release-open_file_example :
    let s1 = (open_file server settings 2 path 0 start).1 in
    let (answer, s') = on_handle server reading (release server settings) s1 in
    (answer ≡ some (ok, none))
    × ((id : Text) → get s'.file_handle_map id ≡ get start.file_handle_map id)
    × ((p : Text) → list_by_path s'.file_handle_map p ≡ list_by_path start.file_handle_map p)
    × (s'.world ≡ s1.world)
unfolding open_file irods_open_lazy new_file_handle_lazy get lookup
    ensure_vpath_entry_is_irods_entry irods_get_open_flags
release-open_file_example =
    release-open_file server settings 2 path 0 start reading empty-IsConsistent refl refl
