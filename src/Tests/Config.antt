-- ===== src/Tests/Config.antt =====
-- A configuration, the operating system that it is checked against, and the command line that gives it.
use irodsfs.Base.{
  ◌≡◌, ◌↔◌, refl, ℕ, true, false, Option, none, some, List, [], ◌∷◌, codes, Text, same, has_prefix,
}
use irodsfs.Base.Dict.{lookup}
use irodsfs.Base.Ints.{ℤ, pos, negsuc}
use irodsfs.Os.{User, Url, Icommands, found, Os}
use irodsfs.Users.{get_current_system_user, correct_system_user}
use irodsfs.Config.{
  Config, Yaml, minutes, new_default_config, make_log_dir, make_dir, get_log_file_path,
  correct_owner, get_default_data_root_dir_path,
}
use irodsfs.Config.Validation.{
  validate, validate_account, validate_connection, validate_paths, parse_pool_service_endpoint,
}
use irodsfs.Config.Validation.Laws.{IsValidAccount, HasValidPaths, IsValidConnection, validate_iff}
use irodsfs.Config.Icommands.{mapping_of}
use irodsfs.Cmd.Words.{index, trim, trim_left}
use irodsfs.Cmd.Urls.{
  parse_irods_url, split_path, zone_of, update_config, update_config_from_irods_url,
}
use irodsfs.Cmd.Args.{
  prepare, read_config, set_modes, parent_log_writer, complete, apply_url, ask_missing,
  input_missing_params, settle, accepted, process_common_flags,
}
use irodsfs.Cmd.Args.FlagValues.{Flags, set_common_flags}
use irodsfs.Cmd.Args.Overrides.{
  merge_flags, read_mappings, read_tuning, fuse_options_of, overridden,
}

abbrev ann : User
ann = record { username = codes "ann"; uid = some (pos 1000); gid = some (pos 100) }

-- A number is printed as one element here, after a zero if it is negative.
abbrev pub print : ℤ → Text
print (pos n) = n ∷ []
print (negsuc n) = 0 ∷ n ∷ []

abbrev pub parse : Text → Option ℤ
parse [] = none
parse (n ∷ []) = some (pos n)
parse (m ∷ n ∷ t) = some (negsuc n)

abbrev pub url : Url
url = record {
  scheme = codes "irods";
  host = codes "h";
  path = codes "/z/home";
  user = some (codes "ann", none);
  hostname = codes "h";
  port = [];
}

abbrev pub environment : Icommands
environment = record {
  account = record {
    auth_scheme = codes "native";
    cs_negotiation_policy = [];
    client_server_negotiation = false;
    host = codes "h";
    port = pos 1247;
    client_user = codes "ann";
    client_zone = codes "z";
    proxy_user = codes "ann";
    password = codes "p";
    default_resource = [];
    ca_certificate_file = [];
    ca_certificate_path = [];
    encryption_key_size = pos 32;
    encryption_algorithm = codes "AES";
    salt_size = pos 8;
    hash_rounds = pos 16;
  };
  session_dir = none;
  environment_dir = [];
  home = codes "/z/home/ann";
}

abbrev pub os : Os
os = record {
  World = ℕ;
  lookup = λ name. some ann;
  lookup_id = λ id. none;
  current = some ann;
  goos = codes "linux";
  stat = λ path w. found (record { is_dir = true; is_writable = true; is_char_device = true });
  mkdir_all = λ path w. (true, w);
  getwd = λ w. some (codes "/var");
  read_file = λ path w. none;
  read_dir = λ path w. none;
  look_path = λ file w. some file;
  run = λ file args w. (([], true), w);
  path_join = λ root path. path;
  path_clean = λ path. path;
  file_dir = λ path. codes "/var";
  file_ext = λ path. [];
  abs = λ path w. some path;
  read_stdin = λ w. (some (codes "y"), w);
  scan_word = λ w. (codes "ann", w);
  read_password = λ w. (some (codes "p"), w);
  parse_int32 = parse;
  parse_bool = λ value. false;
  parse_duration = parse;
  format_int = print;
  format_duration = print;
  parse_url = λ text. some url;
  new_id = λ w. (codes "id", w);
  are_valid_mappings = λ l. true;
  unmarshal_mappings = λ text. none;
  directory_mapping = codes "dir";
  native_scheme = codes "native";
  require_tcp = codes "tcp";
  is_pam = λ scheme. false;
  uses_ssl = λ policy. false;
  load_icommands = λ path w. (some environment, w);
}

abbrev pub config : Config
config = record {
  host = codes "h";
  port = pos 1247;
  proxy_user = codes "ann";
  client_user = codes "ann";
  zone = codes "z";
  password = codes "p";
  resource = [];
  path_mappings = mapping_of os (codes "/z/home") ∷ [];
  no_permission_check = false;
  no_set_xattr = false;
  uid = pos 1000;
  gid = pos 100;
  system_user = codes "ann";
  mount_path = codes "/mnt";
  data_root_path = codes "/var";
  log_path = codes "id.log";
  pool_endpoint = [];
  auth_scheme = codes "native";
  client_server_negotiation = false;
  cs_negotiation_policy = codes "tcp";
  ca_certificate_file = [];
  ca_certificate_path = [];
  encryption_key_size = pos 32;
  encryption_algorithm = codes "AES-256-CBC";
  salt_size = pos 8;
  hash_rounds = pos 16;
  read_ahead_max = pos 131072;
  operation_timeout = minutes;
  connection_lifespan = pos 3600000000000;
  connection_idle_timeout = minutes;
  connection_max = pos 10;
  metadata_cache_timeout = minutes;
  metadata_cache_cleanup_time = minutes;
  metadata_cache_timeout_settings = [];
  start_new_transaction = true;
  invalidate_parent_entry_cache_immediately = false;
  monitor_url = [];
  profile = false;
  profile_service_port = pos 11021;
  foreground = false;
  log_level = [];
  debug = false;
  allow_other = false;
  child_process = false;
  instance_id = codes "id";
  fuse_options = [];
}

validate_iff_example :
    validate os config 0 ≡ none
    ↔ IsValidAccount config × HasValidPaths os config 0 × IsValidConnection os config
validate_iff_example = validate_iff os config 0

-- Only flags for the password and the user's ID are given.
unfoldable pub flags : Flags
flags name =
    lookup name ((codes "password", codes "p") ∷ (codes "uid", print (pos 7)) ∷ set_common_flags os)

abbrev pub args : List Text
args = codes "irods://h/z/home" ∷ codes "/mnt" ∷ []

abbrev pub yaml : Yaml
yaml = record { marshal = λ c. some (codes "y"); unmarshal = λ text d. some config }

pub config_is_accepted :
    process_common_flags os yaml flags args 0 ≡ ((accepted config, some (codes "id.log.parent")), 0)
unfolding process_common_flags flags same prepare read_config make_log_dir get_log_file_path
    set_modes new_default_config make_dir merge_flags parent_log_writer read_mappings read_tuning
    complete parse_irods_url has_prefix split_path zone_of lookup apply_url ask_missing
    fuse_options_of input_missing_params overridden set_common_flags settle update_config
    update_config_from_irods_url index trim trim_left validate validate_account validate_connection
    validate_paths parse_pool_service_endpoint correct_owner correct_system_user
    get_default_data_root_dir_path get_current_system_user
config_is_accepted = refl
