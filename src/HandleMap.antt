-- ===== src/HandleMap.antt =====
-- irodsfs/filehandle_map.go: the open file handles, by ID and by path. A `range` over a map takes the
-- order of its keys as an argument. The mutex is left out: a call is one step.
pub mod Lists
pub mod Lookups
pub mod Consistency
pub mod Histories
pub mod Renames
pub mod RenamedDirs
pub mod Refinement
pub mod RoundTrips
use irodsfs.Base.{
  ℕ, ◌≡◌, Bool, true, false, ◌&&◌, not, Option, none, some, List, [], ◌∷◌, ◌++◌, Text, codes, same,
  has_prefix, has_suffix, drop_prefix, ltb, length, if◌then◌else◌,
}
use irodsfs.Base.Dict.{Dict, lookup, insert, delete}
use irodsfs.Types.{FileHandle}

pub record FileHandleMap : Type 0 where
  pub file_handles : Dict FileHandle
  pub file_path_id : Dict (List Text)

abbrev pub new_file_handle_map : FileHandleMap
new_file_handle_map = record { file_handles = []; file_path_id = [] }

-- The branches of `Add` on the path's entry.
abbrev pub append_id : Option (List Text) → Text → List Text
append_id none id = id ∷ []
append_id (some ids) id = ids ++ id ∷ []

unfoldable pub add : FileHandleMap → FileHandle → FileHandleMap
add m handle = record {
  file_handles = insert handle.id handle m.file_handles;
  file_path_id =
      insert handle.path (append_id (lookup handle.path m.file_path_id) handle.id) m.file_path_id;
}

-- The loop that fills `newIDs`.
unfoldable pub without : Text → List Text → List Text
without id [] = []
without id (handle_id ∷ ids) =
    let rest = without id ids in if not (same handle_id id) then handle_id ∷ rest else rest

-- What `Remove` and `Pop` do to the entry of the handle's path.
abbrev pub put_ids : Text → List Text → Dict (List Text) → Dict (List Text)
put_ids path [] index = delete path index
put_ids path (id ∷ ids) index = insert path (id ∷ ids) index

unfoldable pub drop_id : Text → Text → Dict (List Text) → Dict (List Text)
unfolding without
drop_id id path index = elim (lookup path index) [
  | none ↦ index
  | some ids ↦ put_ids path (without id ids) index
]

unfoldable pub remove : FileHandleMap → Text → FileHandleMap
remove m id = elim (lookup id m.file_handles) [
  | none ↦ m
  | some handle ↦ record {
    file_handles = delete id m.file_handles;
    file_path_id = drop_id id handle.path m.file_path_id;
  }
]

-- The handles that a `range` over the first map produces.
unfoldable pub collect : List Text → Dict FileHandle → List FileHandle
collect [] handles = []
collect (k ∷ order) handles =
    let rest = collect order handles in
    elim (lookup k handles) [ none ↦ rest | some handle ↦ handle ∷ rest ]

abbrev pub clear : FileHandleMap → FileHandleMap
clear m = new_file_handle_map

unfoldable pub pop_all : List Text → FileHandleMap → List FileHandle × FileHandleMap
pop_all order m = (collect order m.file_handles, new_file_handle_map)

unfoldable pub list : List Text → FileHandleMap → List FileHandle
list order m = collect order m.file_handles

unfoldable pub get : FileHandleMap → Text → Option FileHandle
get m id = lookup id m.file_handles

unfoldable pub pop : FileHandleMap → Text → Option FileHandle × FileHandleMap
pop m id = elim (lookup id m.file_handles) [
  | none ↦ (none, m)
  | some handle ↦ (
    some handle,
    record {
      file_handles = delete id m.file_handles;
      file_path_id = drop_id id handle.path m.file_path_id;
    },
  )
]

-- The IDs under a path; `[]` where the path has no entry.
abbrev pub ids_or_nil : Option (List Text) → List Text
ids_or_nil none = []
ids_or_nil (some ids) = ids

unfoldable pub list_by_path : FileHandleMap → Text → List FileHandle
list_by_path m path = collect (ids_or_nil (lookup path m.file_path_id)) m.file_handles

-- A path with the slash that makes it the prefix of what lies in it.
unfoldable pub dir_prefix : Text → Text
dir_prefix path =
    if ltb 1 (length path) && not (has_suffix path (codes "/")) then path ++ codes "/" else path

-- The keys of the path map, of those that the range produces, with a prefix.
unfoldable pub paths_with_prefix : List Text → Dict (List Text) → Text → List Text
paths_with_prefix [] index prefix = []
paths_with_prefix (path ∷ order) index prefix =
    let rest = paths_with_prefix order index prefix in
    elim (lookup path index) [
      | none ↦ rest
      | some ids ↦ if has_prefix path prefix then path ∷ rest else rest
    ]

unfoldable pub list_paths_in_dir : List Text → FileHandleMap → Text → List Text
list_paths_in_dir order m parent_path =
    paths_with_prefix order m.file_path_id (dir_prefix parent_path)

-- The loop of `PopByPath` over the IDs.
unfoldable pub pop_ids : List Text → Dict FileHandle → List FileHandle × Dict FileHandle
pop_ids [] handles = ([], handles)
pop_ids (id ∷ ids) handles =
    let (found, rest) = pop_ids ids (delete id handles) in
    elim (lookup id handles) [ none ↦ (found, rest) | some handle ↦ (handle ∷ found, rest) ]

unfoldable pub pop_by_path : FileHandleMap → Text → List FileHandle × FileHandleMap
pop_by_path m path = elim (lookup path m.file_path_id) [
  | none ↦ ([], m)
  | some ids ↦
      let (found, rest) = pop_ids ids m.file_handles in
      (found, record { file_handles = rest; file_path_id = delete path m.file_path_id })
]

-- Moves the IDs under one path to another.
unfoldable pub move_ids : Dict (List Text) → Text → Text → Dict (List Text)
move_ids index path new_path = elim (lookup path index) [
  | none ↦ index
  | some ids ↦ insert new_path ids (delete path index)
]

unfoldable pub move_paths : List Text → Text → Text → Dict (List Text) → Dict (List Text)
move_paths [] prefix new_prefix index = index
move_paths (path ∷ paths) prefix new_prefix index =
    move_paths paths prefix new_prefix (move_ids index path (new_prefix ++ drop_prefix path prefix))

unfoldable pub rename_dir : List Text → FileHandleMap → Text → Text → FileHandleMap
rename_dir order m src_parent_path dest_parent_path =
    let prefix = dir_prefix src_parent_path in
    let new_prefix = dir_prefix dest_parent_path in
    let paths = paths_with_prefix order m.file_path_id prefix in
    record m { file_path_id = move_paths paths prefix new_prefix m.file_path_id }

unfoldable pub rename_file : FileHandleMap → Text → Text → FileHandleMap
rename_file m src_path dest_path = record m {
  file_path_id = move_ids m.file_path_id src_path dest_path;
}

unfoldable pub rename : List Text → FileHandleMap → Text → Text → FileHandleMap
unfolding rename_dir
rename order m src_path dest_path = elim (lookup src_path m.file_path_id) [
  | none ↦ rename_dir order m src_path dest_path
  | some ids ↦ record m { file_path_id = insert dest_path ids (delete src_path m.file_path_id) }
]
