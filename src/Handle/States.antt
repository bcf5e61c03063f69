-- ===== src/Handle/States.antt =====
-- filehandle.go: the states that a handle's cell goes through, whatever methods are called.
use irodsfs.Base.{
  ◌≡◌, sym, subst, ◌↔◌, ◌⊎◌, inl, inr, ℕ, List, Option, none, some, Text, arith, Option-cases,
}
use irodsfs.Base.Ints.{ℤ}
use irodsfs.Types.{FileHandle, FileOpenMode, read_only}
use irodsfs.Env.{External, Settings, Sys, Cell, Node, nil_reader, nil_writer, replied, Reply-cases}
use irodsfs.Irods.Opens.{init_reader_writer, report_access, new_file_handle, new_file_handle_lazy}
use irodsfs.Irods.Opens.Laws.{OpenModes, WriteOnly, new_file_handle_lem, init_reader_writer_lem}
use irodsfs.Handle.Transfers.{init_lazy, read, write, truncate, flush, fsync}
use irodsfs.Handle.Closing.{release}
use irodsfs.Handle.Closing.Laws.{release_parts}
use irodsfs.Handle.Nodes
use irodsfs.Handle.Cells.{
  read_cell, write_cell, truncate_cell, flush_cell, locks_cell, getattr_cell, setattr_cell,
  lock_requests_cell,
}
use irodsfs.Handle.LockRequests.{FileLock, get_local_lock, set_local_lock, set_local_lock_w}

module _ (E : External) (fs : Settings) where
  -- A handle without a server's handle has neither reader nor writer. A reader that is there reads
  -- nothing exactly when the mode asks for writing only, and a writer that is there writes nothing
  -- exactly when it asks for reading only.
  abbrev pub WellFormed : FileHandle → Cell E → Type 0
  WellFormed handle cell =
      (cell.irods_file_handle ≡ none → (cell.reader ≡ none) × (cell.writer ≡ none))
      × ((cell.reader ≡ none) ⊎ (cell.reader ≡ some nil_reader ↔ WriteOnly handle.open_mode))
      × ((cell.writer ≡ none) ⊎ (cell.writer ≡ some nil_writer ↔ handle.open_mode ≡ read_only))

  init_lazy-WellFormed :
      (handle : FileHandle) (cell : Cell E) (s : Sys E)
      → OpenModes E
      → WellFormed handle cell
      → WellFormed handle (init_lazy E fs handle cell s).0.1
  unfolding init_lazy
  init_lazy-WellFormed handle cell s laws w = elim (Option-cases cell.irods_file_handle) [
    | inr (h, e) ↦ ground (arith, e, w)
    | inl e ↦ elim (Reply-cases (E.open_file handle.path handle.open_mode s.world).0) [
      | inl (x, o) ↦ ground (arith, e, o, w)
      | inr (h, o) ↦
          let s1 =
            (report_access E fs h
              (record s { world = (E.open_file handle.path handle.open_mode s.world).1 })).1 in
          elim (Reply-cases (init_reader_writer E handle.open_mode h s1).0) [
            | inl (x, i) ↦ ground (arith, e, o, i, w)
            | inr ((reader, writer), i) ↦
                let l = init_reader_writer_lem E handle.open_mode h s1 reader writer laws i in
                ground (arith, e, o, i, w, l)
          ]
    ]
  ]

  setattr-WellFormed :
      (in_size : Option ℕ) (handle : FileHandle) (cell : Cell E) (s : Sys E)
      → OpenModes E
      → WellFormed handle cell
      → WellFormed handle (Nodes.setattr E fs in_size handle cell s).0.1
  setattr-WellFormed in_size handle cell s laws w =
      let cell1 = (init_lazy E fs handle cell s).0.1 in
      let w1 = init_lazy-WellFormed handle cell s laws w in
      elim (setattr_cell E fs in_size handle cell s) [
        | inl e ↦ subst (λ c. WellFormed handle c) (sym e) w
        | inr (inl e) ↦ subst (λ c. WellFormed handle c) (sym e) w1
        | inr (inr (size, s2, e)) ↦
            subst (λ c. WellFormed handle c) (sym e)
              (ground (
                arith,
                w1,
                truncate_cell E fs size handle cell1 s2,
                init_lazy-WellFormed handle cell1 s2 laws w1,
              ))
      ]

  release-WellFormed :
      (handle : FileHandle) (cell : Cell E) (s : Sys E)
      → WellFormed handle cell
      → WellFormed handle (release E fs handle cell s).0.1
  release-WellFormed handle cell s w = ground (arith, w, release_parts E fs handle cell s)

  -- One call of a method, in any state of the file system. `SetFile` also stands for a rename, which
  -- changes the node that the cell points to.
  pub data Step (handle : FileHandle) : Cell E → Cell E → Type 0 where
    reads :
        (dest : List ℕ) (offset : ℤ) (cell : Cell E) (s : Sys E)
        → Step handle cell (read E fs dest offset handle cell s).0.1
    writes :
        (bytes : List ℕ) (offset : ℤ) (cell : Cell E) (s : Sys E)
        → Step handle cell (write E fs bytes offset handle cell s).0.1
    truncates :
        (size : ℕ) (cell : Cell E) (s : Sys E)
        → Step handle cell (truncate E fs size handle cell s).0.1
    flushes : (cell : Cell E) (s : Sys E) → Step handle cell (flush E fs handle cell s).0.1
    fsyncs : (cell : Cell E) (s : Sys E) → Step handle cell (fsync E fs handle cell s).0.1
    releases : (cell : Cell E) (s : Sys E) → Step handle cell (release E fs handle cell s).0.1
    gets_lock :
        (order : List Text) (lk : FileLock) (cell : Cell E) (s : Sys E)
        → Step handle cell (get_local_lock E fs order lk handle cell s).0.1
    sets_lock :
        (order : List Text) (lk : FileLock) (cell : Cell E) (s : Sys E)
        → Step handle cell (set_local_lock E fs order lk handle cell s).0.1
    waits_for_lock :
        (order : List Text) (lk : FileLock) (cell : Cell E) (s : Sys E)
        → Step handle cell (set_local_lock_w E fs order lk handle cell s).0.1
    getattrs : (cell : Cell E) (s : Sys E) → Step handle cell (Nodes.getattr E fs handle cell s).0.1
    setattrs :
        (in_size : Option ℕ) (cell : Cell E) (s : Sys E)
        → Step handle cell (Nodes.setattr E fs in_size handle cell s).0.1
    getlks :
        (order : List Text) (lk : FileLock) (cell : Cell E) (s : Sys E)
        → Step handle cell (Nodes.getlk E fs order lk handle cell s).0.1
    setlks :
        (order : List Text) (lk : FileLock) (cell : Cell E) (s : Sys E)
        → Step handle cell (Nodes.setlk E fs order lk handle cell s).0.1
    setlkws :
        (order : List Text) (lk : FileLock) (cell : Cell E) (s : Sys E)
        → Step handle cell (Nodes.setlkw E fs order lk handle cell s).0.1
    sets_file :
        (file : Option Node) (cell : Cell E) → Step handle cell (record cell { file = file })

  -- A handle is made lazily, or on a server's handle, and methods are called on it.
  pub data Reachable : FileHandle → Cell E → Type 0 where
    lazy :
        (path : Text) (mode : FileOpenMode) (s : Sys E)
        → Reachable
            (new_file_handle_lazy E path mode s).0.0
            (new_file_handle_lazy E path mode s).0.1
    eager :
        (h : E.IrodsHandle) (handle : FileHandle) (cell : Cell E) (s : Sys E)
        → (new_file_handle E h s).0 ≡ replied (handle, cell)
        → Reachable handle cell
    next :
        {handle : FileHandle} {cell cell' : Cell E}
        → Reachable handle cell
        → Step handle cell cell'
        → Reachable handle cell'

  Step-WellFormed :
      {handle : FileHandle} {cell cell' : Cell E}
      → OpenModes E
      → Step handle cell cell'
      → WellFormed handle cell
      → WellFormed handle cell'
  Step-WellFormed {handle} laws (reads dest offset cell s) w = ground (
    arith,
    w,
    read_cell E fs dest offset handle cell s,
    init_lazy-WellFormed handle cell s laws w,
  )
  Step-WellFormed {handle} laws (writes bytes offset cell s) w = ground (
    arith,
    w,
    write_cell E fs bytes offset handle cell s,
    init_lazy-WellFormed handle cell s laws w,
  )
  Step-WellFormed {handle} laws (truncates size cell s) w =
      ground
        (arith, w, truncate_cell E fs size handle cell s, init_lazy-WellFormed handle cell s laws w)
  Step-WellFormed {handle} laws (flushes cell s) w =
      ground (arith, w, flush_cell E fs handle cell s)
  Step-WellFormed {handle} laws (fsyncs cell s) w = ground (arith, w, flush_cell E fs handle cell s)
  Step-WellFormed {handle} laws (releases cell s) w = release-WellFormed handle cell s w
  Step-WellFormed {handle} laws (gets_lock order lk cell s) w =
      ground (arith, w, locks_cell E fs order lk handle cell s)
  Step-WellFormed {handle} laws (sets_lock order lk cell s) w =
      ground (arith, w, locks_cell E fs order lk handle cell s)
  Step-WellFormed {handle} laws (waits_for_lock order lk cell s) w =
      ground (arith, w, locks_cell E fs order lk handle cell s)
  Step-WellFormed {handle} laws (getattrs cell s) w =
      ground (arith, w, getattr_cell E fs handle cell s)
  Step-WellFormed {handle} laws (setattrs in_size cell s) w =
      setattr-WellFormed in_size handle cell s laws w
  Step-WellFormed {handle} laws (getlks order lk cell s) w =
      ground (arith, w, lock_requests_cell E fs order lk handle cell s)
  Step-WellFormed {handle} laws (setlks order lk cell s) w =
      ground (arith, w, lock_requests_cell E fs order lk handle cell s)
  Step-WellFormed {handle} laws (setlkws order lk cell s) w =
      ground (arith, w, lock_requests_cell E fs order lk handle cell s)
  Step-WellFormed {handle} laws (sets_file file cell) w = w

  new_file_handle_lazy-WellFormed :
      (path : Text) (mode : FileOpenMode) (s : Sys E)
      → let (handle, cell) = (new_file_handle_lazy E path mode s).0 in WellFormed handle cell
  unfolding new_file_handle_lazy
  new_file_handle_lazy-WellFormed path mode s = ground arith

  -- Whatever methods are called on a handle, in any order and in any state of the file system, its cell
  -- stays well formed: `Read`, `Write`, `Truncate`, `Flush`, `Fsync`, `Release`, `Getattr`, `Setattr`, the
  -- three calls for locks with the three local ones under them, and `SetFile`.
  pub Reachable-WellFormed :
      {handle : FileHandle} {cell : Cell E}
      → OpenModes E
      → Reachable handle cell
      → WellFormed handle cell
  Reachable-WellFormed laws (lazy path mode s) = new_file_handle_lazy-WellFormed path mode s
  Reachable-WellFormed laws (eager h handle cell s e) =
      ground (arith, new_file_handle_lem E h s handle cell laws e)
  Reachable-WellFormed laws (next r step) = Step-WellFormed laws step (Reachable-WellFormed laws r)
