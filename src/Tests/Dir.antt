-- ===== src/Tests/Dir.antt =====
-- The handlers of dir.go, run on the small server.
use irodsfs.Base.{◌≡◌, ◌≢◌, ◌↔◌, inl, refl, true, none, some, [], codes}
use irodsfs.Base.Dict.{insert}
use irodsfs.Types.{ok, eperm, FileHandle}
use irodsfs.Env.{Sys, Cell, get_next_operation_id}
use irodsfs.HandleMap.{add}
use irodsfs.Dir.Changes.{rmdir, unlink, mkdir, create}
use irodsfs.Dir.Changes.Laws.{protected_lem, create_lem, SameHandles}
use irodsfs.Tests.Server.{server, settings, start}

abbrev stopped : Sys server
stopped = record start { terminated = true }

protected_lem_example :
    let s' = (get_next_operation_id start).1 in
    (s'.world ≡ start.world)
    × (rmdir server settings [] (codes "m") start ≡ (eperm, s'))
    × (unlink server settings [] (codes "m") start ≡ (eperm, s'))
    × (mkdir server settings [] (codes "m") start ≡ ((none, eperm, none), s'))
    × (create server settings [] (codes "m") 1 start ≡ ((none, none, 0, eperm, none), s'))
protected_lem_example = protected_lem server settings [] (codes "m") 1 start tt refl refl (inl refl)

create_lem_example :
    let (result, s') = create server settings (codes "/m") (codes "n") 1 start in
    (result.3 ≡ ok ↔ result.1 ≢ none)
    × (result.1 ≡ none → SameHandles server settings start s')
    × ((h : FileHandle)
        → result.1 ≡ some h
        → (s'.file_handle_map ≡ add start.file_handle_map h)
          × ((cell : Cell server) × (cell.file ≡ result.0)
              × (s'.cells ≡ insert h.id cell start.cells)))
create_lem_example = create_lem server settings (codes "/m") (codes "n") 1 start
