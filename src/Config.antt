-- ===== src/Config.antt =====
-- commons/config.go: `Config`, its defaults, its reading from YAML, and its methods but `Validate`,
-- which is in Validation. Icommands is icommands.go. Durations are nanoseconds.
pub mod Validation
pub mod Icommands
pub mod Laws
use irodsfs.Base.{
  ◌*◌, Bool, true, false, ◌||◌, Option, none, some, List, Text, codes, same, length, ◌==◌, [], ◌++◌,
  if◌then◌else◌,
}
use irodsfs.Base.Ints.{ℤ, pos}
use irodsfs.Os.{PathMapping, FileInfo, not_exist, unreadable, found, Os}
use irodsfs.Users.{get_current_system_user, correct_system_user}

pub record MetadataCacheTimeoutSetting : Type 0 where
  pub path : Text
  pub timeout : ℤ
  pub inherit : Bool

pub record Config : Type 0 where
  pub host : Text
  pub port : ℤ
  pub proxy_user : Text
  pub client_user : Text
  pub zone : Text
  pub password : Text
  pub resource : Text
  pub path_mappings : List PathMapping
  pub no_permission_check : Bool
  pub no_set_xattr : Bool
  pub uid : ℤ
  pub gid : ℤ
  pub system_user : Text
  pub mount_path : Text
  pub data_root_path : Text
  pub log_path : Text
  pub pool_endpoint : Text
  pub auth_scheme : Text
  pub client_server_negotiation : Bool
  pub cs_negotiation_policy : Text
  pub ca_certificate_file : Text
  pub ca_certificate_path : Text
  pub encryption_key_size : ℤ
  pub encryption_algorithm : Text
  pub salt_size : ℤ
  pub hash_rounds : ℤ
  pub read_ahead_max : ℤ
  pub operation_timeout : ℤ
  pub connection_lifespan : ℤ
  pub connection_idle_timeout : ℤ
  pub connection_max : ℤ
  pub metadata_cache_timeout : ℤ
  pub metadata_cache_cleanup_time : ℤ
  pub metadata_cache_timeout_settings : List MetadataCacheTimeoutSetting
  pub start_new_transaction : Bool
  pub invalidate_parent_entry_cache_immediately : Bool
  pub monitor_url : Text
  pub profile : Bool
  pub profile_service_port : ℤ
  pub foreground : Bool
  pub log_level : Text
  pub debug : Bool
  pub allow_other : Bool
  pub child_process : Bool
  pub instance_id : Text
  pub fuse_options : List Text

abbrev pub minutes : ℤ
minutes = pos (5 * 60 * 1000000000)

abbrev pub read_ahead_max_default : ℤ
read_ahead_max_default = pos (1024 * 128)

abbrev pub connection_max_default : ℤ
connection_max_default = pos 10

unfoldable pub get_default_data_root_dir_path : (os : Os) → os.World → Text
get_default_data_root_dir_path os w = elim (os.getwd w) [
  | none ↦ codes "/var/lib/irodsfs"
  | some dir_path ↦ dir_path
]

-- The error of `GetCurrentSystemUser` is dropped.
unfoldable pub new_default_config : (os : Os) → os.World → Config × os.World
new_default_config os w =
    let (system_user, uid, gid, ok) = get_current_system_user os in
    let (id, w') = os.new_id w in
    let config : Config = record {
      host = [];
      port = pos 1247;
      proxy_user = [];
      client_user = [];
      zone = [];
      password = [];
      resource = [];
      path_mappings = [];
      no_permission_check = false;
      no_set_xattr = false;
      uid = uid;
      gid = gid;
      system_user = system_user;
      mount_path = [];
      data_root_path = get_default_data_root_dir_path os w;
      log_path = [];
      pool_endpoint = [];
      auth_scheme = os.native_scheme;
      client_server_negotiation = false;
      cs_negotiation_policy = os.require_tcp;
      ca_certificate_file = [];
      ca_certificate_path = [];
      encryption_key_size = pos 32;
      encryption_algorithm = codes "AES-256-CBC";
      salt_size = pos 8;
      hash_rounds = pos 16;
      read_ahead_max = read_ahead_max_default;
      operation_timeout = minutes;
      connection_lifespan = pos (3600 * 1000000000);
      connection_idle_timeout = minutes;
      connection_max = connection_max_default;
      metadata_cache_timeout = minutes;
      metadata_cache_cleanup_time = minutes;
      metadata_cache_timeout_settings = [];
      start_new_transaction = true;
      invalidate_parent_entry_cache_immediately = false;
      monitor_url = [];
      profile = false;
      profile_service_port = pos 11021;
      foreground = false;
      log_level = [];
      debug = false;
      allow_other = false;
      child_process = false;
      instance_id = id;
      fuse_options = [];
    } in
    (config, w')

-- `CorrectSystemUser`, the method.
unfoldable pub correct_owner : Os → Config → Option Config
correct_owner os config = elim (correct_system_user os config.system_user config.uid config.gid) [
  | none ↦ none
  | some (system_user, uid, gid) ↦
      some (record config { system_user = system_user; uid = uid; gid = gid })
]

-- yaml.v2 on this type: what a text says is put over the configuration given.
pub record Yaml : Type 0 where
  pub marshal : Config → Option Text
  pub unmarshal : Text → Config → Option Config

unfoldable pub new_config_from_yaml : (os : Os) → Yaml → Text → os.World → Option Config × os.World
new_config_from_yaml os yaml yaml_bytes w =
    let (config, w') = new_default_config os w in
    elim (yaml.unmarshal yaml_bytes config) [
      | none ↦ (none, w')
      | some config ↦ (correct_owner os config, w')
    ]

unfoldable pub get_log_file_path : Os → Config → Text
get_log_file_path os config =
    if length config.log_path == 0
    then os.path_join config.data_root_path (config.instance_id ++ codes ".log")
    else config.log_path

unfoldable pub get_instance_data_root_dir_path : Os → Config → Text
get_instance_data_root_dir_path os config = os.path_join config.data_root_path config.instance_id

-- Whether there was no error.
unfoldable pub make_dir : (os : Os) → Text → os.World → Bool × os.World
make_dir os path w = if length path == 0 then (false, w) else elim (os.stat path w) [
  | not_exist ↦ os.mkdir_all path w
  | unreadable ↦ (false, w)
  | found dir_info ↦ if dir_info.is_dir then (dir_info.is_writable, w) else (false, w)
]

unfoldable pub make_log_dir : (os : Os) → Config → os.World → Bool × os.World
make_log_dir os config w =
    let log_file_path = get_log_file_path os config in
    if same log_file_path (codes "-") then (true, w) else make_dir os (os.file_dir log_file_path) w

unfoldable pub is_yaml_file : (os : Os) → Text → os.World → Bool
is_yaml_file os file_path w = elim (os.stat file_path w) [
  | found st ↦
      if st.is_dir
      then false
      else same (os.file_ext file_path) (codes ".yaml")
        || same (os.file_ext file_path) (codes ".yml")
  | not_exist ↦ false
  | unreadable ↦ false
]
