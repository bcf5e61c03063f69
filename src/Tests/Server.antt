-- ===== src/Tests/Server.antt =====
-- A small server, mapped at `/m`, for the runs: it keeps entries, takes removals and refuses to rename
-- files.
use irodsfs.Base.{
  Bool, true, false, not, Option, none, some, List, [], ◌∷◌, ◌++◌, Text, codes, same, length,
  drop_prefix, if◌then◌else◌,
}
use irodsfs.Types.{FileOpenMode, read_only, write_only, append, write_truncate, read_write}
use irodsfs.Env.{
  External, Settings, Sys, Entry, Access, Meta, Reply, failed, replied, modify_object, rods_user,
}
use irodsfs.HandleMap.{new_file_handle_map}

pub data ServerError : Type 0 where
  missing refused : ServerError

abbrev pub find : Text → List Entry → Option Entry
find path [] = none
find path (entry ∷ entries) = if same entry.path path then some entry else find path entries

abbrev pub take_out : Text → List Entry → List Entry
take_out path [] = []
take_out path (entry ∷ entries) =
    let rest = take_out path entries in if same entry.path path then rest else entry ∷ rest

abbrev pub put : Text → Bool → List Entry → List Entry
put path is_dir entries =
    record {
      id = 9;
      is_dir = is_dir;
      name = path;
      path = path;
      owner = codes "ann";
      size = 0;
      modify_time = 7;
    }
    ∷ entries

abbrev pub or_missing : Option Entry → Reply ServerError Entry
or_missing none = failed missing
or_missing (some entry) = replied entry

abbrev pub is_missing : ServerError → Bool
is_missing missing = true
is_missing refused = false

abbrev pub reads : FileOpenMode → Bool
reads read_only = true
reads write_only = false
reads append = false
reads write_truncate = false
reads read_write = false

abbrev pub writes : FileOpenMode → Bool
writes read_only = false
writes write_only = true
writes append = true
writes write_truncate = true
writes read_write = false

abbrev pub collection : Entry
collection = record {
  id = 1;
  is_dir = true;
  name = codes "c";
  path = codes "/m";
  owner = codes "ann";
  size = 0;
  modify_time = 5;
}

abbrev pub document : Entry
document = record {
  id = 2;
  is_dir = false;
  name = codes "f";
  path = codes "/m/f";
  owner = codes "bob";
  size = 30;
  modify_time = 6;
}

abbrev pub other : Entry
other = record {
  id = 3;
  is_dir = false;
  name = codes "g";
  path = codes "/m/g";
  owner = codes "ann";
  size = 4;
  modify_time = 6;
}

abbrev pub share : Access
share = record { user_name = codes "ann"; user_type = rods_user; access_level = modify_object }

abbrev pub note : Meta
note = record { name = codes "k"; value = codes "xy" }

abbrev pub server : External
server = record {
  World = List Entry;
  Err = ServerError;
  is_file_not_found_error = is_missing;
  is_connection_error = λ e. false;
  is_connection_pool_full_error = λ e. false;
  is_collection_not_empty_error = λ e. false;
  is_read_only = reads;
  is_write_only = writes;
  is_read = λ m. not (writes m);
  is_write = λ m. not (reads m);
  errorf = refused;
  IrodsHandle = Text × FileOpenMode;
  stat = λ path w. (or_missing (find path w), w);
  list = λ path w. (replied w, w);
  list_dir_acls = λ path w. (replied (share ∷ []), w);
  list_file_acls = λ path w. (replied (share ∷ []), w);
  list_xattr = λ path w. (replied (note ∷ []), w);
  get_xattr = λ path attr w. (replied (some note), w);
  set_xattr = λ path attr value w. (replied tt, w);
  remove_xattr = λ path attr w. (replied tt, w);
  make_dir = λ path w. (replied tt, put path true w);
  remove_dir = λ path w. (replied tt, take_out path w);
  remove_file = λ path w. (replied tt, take_out path w);
  rename_dir_to_dir = λ src dest w. (replied tt, put dest true (take_out src w));
  rename_file_to_file = λ src dest w. (failed refused, w);
  truncate_file = λ path size w. (replied tt, w);
  create_file = λ path mode w. (replied (path, mode), put path false w);
  open_file = λ path mode w. (replied (path, mode), w);
  entry_path = λ h. h.0;
  handle_open_mode = λ h. h.1;
  start_file_access = λ h w. w;
  new_async_reader = λ h w. (replied tt, w);
  truncate = λ h size w. (replied tt, w);
  close = λ h w. (replied tt, w);
  entry_size = λ h w. 30;
  done_file_access = λ h w. (replied tt, w);
  is_eof = λ e. false;
  read_at = λ r h dest offset w. ((dest, length dest, none), w);
  write_at = λ r h bytes offset w. (replied (length bytes), w);
  flush = λ r h w. (replied tt, w);
  release_reader = λ r h w. w;
  reader_error = λ r h w. none;
  release_writer = λ r h w. w;
  writer_error = λ r h w. none;
  new_id = λ w. (codes "h1", w);
  inode_for_irods_entry_id = λ id w. (id, w);
  inode_for_vpath_entry_id = λ id w. (0, w);
  inode_for_vpath_entry = λ path w. (0, w);
  VPathEntry = Unit {0};
  get_entry = λ path w. some tt;
  get_closest_entry = λ path w. some tt;
  vpath_path = λ v. codes "/m";
  vpath_read_only = λ v. false;
  is_virtual_dir_entry = λ v. false;
  is_irods_entry = λ v. true;
  virtual_dir_entry = λ v. record { id = []; name = []; size = 0; modify_time = 0 };
  virtual_dir_entries = λ v w. [];
  irods_entry = λ v w. collection;
  require_irods_entry_update = λ v w. false;
  update_irods_entry = λ v w. (replied tt, w);
  get_irods_path = λ v path. replied path;
  join_path = λ path name. path ++ codes "/" ++ name;
  get_file_name = λ path. path;
  get_relative_path = λ base path. replied (drop_prefix path base);
  now = λ w. 8;
  unmount_fuse = λ w. (replied tt, w);
}

abbrev pub settings : Settings
settings = record {
  no_permission_check = false;
  no_set_xattr = false;
  client_user = codes "ann";
  uid = 1000;
  gid = 100;
  user_groups = [];
  has_report_client = true;
}

abbrev pub start : Sys server
start = record {
  terminated = false;
  operation_id_current = 0;
  file_handle_map = new_file_handle_map;
  cells = [];
  world = collection ∷ document ∷ other ∷ [];
}
