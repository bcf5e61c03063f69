-- ===== src/Tests/Handles.antt =====
-- Two handles on one file and one below a directory.
use irodsfs.Base.{
  ◌≡◌, ◌≢◌, ◌↔◌, refl, true, some, none, List, [], ◌∷◌, map, Text, codes, same, same_iff,
}
use irodsfs.Base.Dict.{lookup, insert, contains, IsRange}
use irodsfs.Types.{FileHandle, read_only, read_write}
use irodsfs.HandleMap.{FileHandleMap, new_file_handle_map, add, remove, get, list_by_path, rename}
use irodsfs.HandleMap.Lookups.{ids_at}
use irodsfs.HandleMap.Consistency.{IsConsistent}
use irodsfs.HandleMap.Histories.{adds, run, AllFresh, run-IsConsistent, apply}
use irodsfs.HandleMap.Renames.{remove_after_rename_leaks}
use irodsfs.HandleMap.Refinement.{replay, run_refines}
use irodsfs.Tests.Maps.{keys-IsRange}

abbrev first : FileHandle
first = record { id = 1 ∷ []; path = codes "/d/f"; open_mode = read_only }

abbrev second : FileHandle
second = record { id = 2 ∷ []; path = codes "/d/f"; open_mode = read_write }

abbrev third : FileHandle
third = record { id = 3 ∷ []; path = codes "/d/g"; open_mode = read_only }

abbrev opened : FileHandleMap
opened = run new_file_handle_map (adds first ∷ adds second ∷ [])

abbrev history : AllFresh new_file_handle_map (adds first ∷ adds second ∷ [])
unfolding lookup insert same add apply
history = (refl, (refl, tt))

opened-IsConsistent : IsConsistent opened
opened-IsConsistent = run-IsConsistent (adds first ∷ adds second ∷ []) history

abbrev file : Text
file = codes "/d/f"

abbrev order : List Text
order = file ∷ []

opened-IsRange : IsRange order opened.file_path_id
unfolding contains run apply add lookup insert same
opened-IsRange = keys-IsRange opened.file_path_id (refl, tt)

file_listed : lookup file opened.file_path_id ≢ none
unfolding run apply add lookup insert same
file_listed e = cc e

names_differ : file ≢ codes "/d/h"
unfolding same
names_differ e = cc ((same_iff file (codes "/d/h")).1 e)

remove_after_rename_leaks_example :
    let m' = remove (rename order opened first.path (codes "/d/h")) first.id in
    (get m' first.id ≡ none)
    × (contains first.id (ids_at m' (codes "/d/h")) ≡ true)
    × (¬ IsConsistent m')
unfolding get run apply add lookup insert same
remove_after_rename_leaks_example =
    remove_after_rename_leaks order opened first (codes "/d/h") opened-IsConsistent refl
      names_differ

run_refines_example :
    let f = replay (λ id. none) (adds first ∷ adds second ∷ []) in
    (get opened first.id ≡ f first.id)
    × ((h : FileHandle) (path : Text)
        → f first.id ≡ some h
        → contains first.id (map (λ g. g.id) (list_by_path opened path)) ≡ true ↔ (h.path ≡ path))
run_refines_example = run_refines (adds first ∷ adds second ∷ []) history first.id
