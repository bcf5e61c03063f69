-- ===== src/Tests/Renames.antt =====
-- `Rename` of dir.go, on the small server, which renames directories only.
use irodsfs.Base.{◌≡◌, ◌≢◌, refl, false, true, some, none, [], ◌∷◌, Text, codes, same, Option}
use irodsfs.Base.Dict.{lookup, insert}
use irodsfs.Base.Ints.{pos}
use irodsfs.Types.{Errno, ok, eremoteio, FileHandle, read_only}
use irodsfs.Env.{External, Sys, Cell, get_next_operation_id, file_node, failed, replied}
use irodsfs.HandleMap.{new_file_handle_map, add, get, list_by_path}
use irodsfs.Handle.Transfers.{read}
use irodsfs.Dir.Nodes.{Tree, dir_tree, file_tree, one_and, no_trees}
use irodsfs.Dir.Renames.{rename_entry, rename_paths}
use irodsfs.Irods.Changes.{irods_rename, delete_dest}
use irodsfs.VPath.{ensure_vpath_entry_is_irods_entry, is_vpath_entry_unmodifiable}
use irodsfs.Dir.Renames.Stale.{renamed_handle_stale}
use irodsfs.Handle.{on_handle}
use irodsfs.Tests.Server.{missing, find, put, take_out, server, settings, start}

abbrev m : Text
m = codes "/m"

-- The small server with a directory below the mapping.
abbrev with_dir : Sys server
with_dir = record start {
  world =
      record {
        id = 5;
        is_dir = true;
        name = codes "d";
        path = codes "/m/d";
        owner = codes "ann";
        size = 0;
        modify_time = 5;
      }
      ∷ start.world;
}

abbrev tree : Tree
tree = dir_tree 5 (codes "/m/d") (one_and (file_tree 6 (codes "/m/d/x")) no_trees)

-- The small server where files can be renamed, and a file is opened at the path that it has only.
abbrev moving : External
moving = record server {
  rename_file_to_file = λ src dest w. (replied tt, put dest false (take_out src w));
  open_file = λ path mode w.
      (elim (find path w) [ none ↦ failed missing | some entry ↦ replied (path, mode) ], w);
}

abbrev unused : FileHandle
unused = record { id = codes "h1"; path = codes "/m/f"; open_mode = read_only }

abbrev unused_cell : Cell moving
unused_cell = record {
  file = some (file_node 2 (codes "/m/f"));
  irods_file_handle = none;
  reader = none;
  writer = none;
  locks = [];
}

-- The file is open, but has not been used.
abbrev opened : Sys moving
opened = record {
  terminated = false;
  operation_id_current = 0;
  file_handle_map = add new_file_handle_map unused;
  cells = (codes "h1", unused_cell) ∷ [];
  world = start.world;
}

abbrev file_f : Tree
file_f = file_tree 2 (codes "/m/f")

abbrev after_rename : (Errno × Option Tree) × Sys moving
after_rename =
    rename_entry moving settings [] m (codes "f") (some m) (codes "ff") (some file_f) opened

listed : lookup (codes "/m/f") opened.file_handle_map.file_path_id ≢ none
unfolding add lookup insert same
listed e = cc e

is_stored : get opened.file_handle_map (codes "h1") ≡ some unused
unfolding get add lookup insert same
is_stored = refl

has_cell : lookup (codes "h1") opened.cells ≡ some unused_cell
unfolding lookup same
has_cell = refl

renames :
    rename_entry moving settings [] m (codes "f") (some m) (codes "ff") (some file_f) opened
    ≡ ((ok, after_rename.0.1), after_rename.1)
unfolding rename_entry rename_paths irods_rename delete_dest ensure_vpath_entry_is_irods_entry
    is_vpath_entry_unmodifiable get_next_operation_id same
renames = refl

gone : (moving.open_file (codes "/m/f") read_only after_rename.1.world).0 ≡ failed missing
unfolding rename_entry rename_paths irods_rename delete_dest ensure_vpath_entry_is_irods_entry
    is_vpath_entry_unmodifiable get_next_operation_id same
gone = refl

renamed_handle_stale_example :
    let s' = after_rename.1 in
    let (answer, s'') = on_handle moving unused (read moving settings (0 ∷ []) (pos 0)) s' in
    (get s'.file_handle_map (codes "h1") ≡ some unused)
    × (list_by_path s'.file_handle_map (codes "/m/ff")
        ≡ list_by_path opened.file_handle_map (codes "/m/f"))
    × (list_by_path s'.file_handle_map (codes "/m/f") ≡ [])
    × (answer ≡ some (none, eremoteio))
    × (s''.world ≡ s'.world)
renamed_handle_stale_example =
    renamed_handle_stale moving settings [] m (codes "f") m (codes "ff") (codes "/m/ff")
      (some file_f) after_rename.0.1 opened after_rename.1 unused unused_cell (0 ∷ []) (pos 0)
      missing refl is_stored listed has_cell refl (tt, refl, refl, tt, refl, refl) (λ e. cc) renames
      gone
