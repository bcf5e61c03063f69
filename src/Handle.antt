-- ===== src/Handle.antt =====
-- filehandle.go: the methods of a `FileHandle`. A method takes the handle's fixed fields and its cell,
-- and answers the cell with its result; `on_handle` finds the cell and stores it. The mutex of a handle
-- is left out: a call is one step, but for the closing that `Release` leaves to a goroutine.
pub mod Transfers
pub mod Closing
pub mod LockRequests
pub mod Nodes
pub mod Cells
pub mod States
pub mod Laziness
pub mod Sessions
use irodsfs.Base.{Option, none, some, Text}
use irodsfs.Base.Dict.{lookup, insert}
use irodsfs.Env.{External, Sys, Cell}
use irodsfs.Types.{FileHandle}

module _ (E : External) where
  -- A method on the handle that the pointer leads to; `none` where there is no such handle.
  abbrev pub on_handle :
      {R : Type 0}
      → FileHandle
      → (FileHandle → Cell E → Sys E → (R × Cell E) × Sys E)
      → Sys E
      → Option R × Sys E
  on_handle handle method s = elim (lookup handle.id s.cells) [
    | none ↦ (none, s)
    | some cell ↦
        let ((r, cell'), s') = method handle cell s in
        (some r, record s' { cells = insert handle.id cell' s'.cells })
  ]
