-- ===== src/Cmd/Args/Overrides.antt =====
-- cmd/commons/args.go: what the flags from `host` to `monitor_url` make of a configuration.
use irodsfs.Base.{ℕ, Bool, not, ◌||◌, none, some, List, Text, codes, length, ◌==◌, if◌then◌else◌}
use irodsfs.Base.Ints.{ℤ}
use irodsfs.Os.{PathMapping, Os}
use irodsfs.Config.{Config}
use irodsfs.Cmd.Words.{trim, split}
use irodsfs.Cmd.Args.FlagValues.{
  Flags, unreadable_config, bad_number, bad_duration, bad_mappings, ok, err, Task, ◌>>=◌, return,
  some_or, value_of, text_flag, positive_flag, duration_flag, setting_flag,
}

abbrev is_bracket : ℕ → Bool
is_bracket b = b == b'[' || b == b']'

-- The options in the value of the flag `fuse_option`, which is a list in brackets.
unfoldable pub fuse_options_of : Flags → List Text → List Text
unfolding trim split
fuse_options_of flags old =
    let options = trim is_bracket (value_of (flags (codes "fuse_option"))) in
    if length options == 0 then old else split options b','

-- The mappings of the file that the flag names.
unfoldable pub read_mappings : (os : Os) → Flags → Config → Task os.World (List PathMapping)
read_mappings os flags config w =
    let path_mapping_file = value_of (flags (codes "path_mapping_file")) in
    if length path_mapping_file == 0
    then (ok config.path_mappings, w)
    else elim (os.read_file path_mapping_file w) [
      | none ↦ (err unreadable_config, w)
      | some yaml_bytes ↦ some_or bad_mappings (os.unmarshal_mappings yaml_bytes) w
    ]

-- The numbers and the durations that flags give.
pub record Tuning : Type 0 where
  pub read_ahead_max : ℤ
  pub connection_max : ℤ
  pub operation_timeout : ℤ
  pub connection_idle_timeout : ℤ
  pub metadata_cache_timeout : ℤ
  pub metadata_cache_cleanup_time : ℤ
  pub uid : ℤ
  pub gid : ℤ
  pub profile_service_port : ℤ

-- The flag `metadata_cache_timeout` is read twice.
unfoldable pub read_tuning : {W : Type 0} → Os → Flags → Config → Task W Tuning
read_tuning os flags config = do
  read_ahead_max ←
      some_or bad_number (positive_flag os flags (codes "readahead") config.read_ahead_max)
  connection_max ←
      some_or bad_number (positive_flag os flags (codes "connection_max") config.connection_max)
  operation_timeout ←
      some_or bad_duration
        (duration_flag os flags (codes "operation_timeout") config.operation_timeout)
  connection_idle_timeout ←
      some_or bad_duration
        (duration_flag os flags (codes "connection_idle_timeout") config.connection_idle_timeout)
  metadata_cache_timeout ←
      some_or bad_duration
        (duration_flag os flags (codes "metadata_cache_timeout") config.metadata_cache_timeout)
  metadata_cache_cleanup_time ←
      some_or bad_duration
        (duration_flag os flags (codes "metadata_cache_timeout") config.metadata_cache_cleanup_time)
  uid ← some_or bad_number (positive_flag os flags (codes "uid") config.uid)
  gid ← some_or bad_number (positive_flag os flags (codes "gid") config.gid)
  profile_service_port ←
      some_or bad_number (positive_flag os flags (codes "profile_port") config.profile_service_port)
  return (record {
    read_ahead_max = read_ahead_max;
    connection_max = connection_max;
    operation_timeout = operation_timeout;
    connection_idle_timeout = connection_idle_timeout;
    metadata_cache_timeout = metadata_cache_timeout;
    metadata_cache_cleanup_time = metadata_cache_cleanup_time;
    uid = uid;
    gid = gid;
    profile_service_port = profile_service_port;
  })

-- The configuration with what all these flags say.
unfoldable pub overridden : Os → Flags → ℤ → List PathMapping → Tuning → Config → Config
overridden os flags port path_mappings t config = record config {
  host = text_flag flags (codes "host") config.host;
  port = port;
  zone = text_flag flags (codes "zone") config.zone;
  proxy_user =
      text_flag flags (codes "user") (text_flag flags (codes "proxy_user") config.proxy_user);
  client_user = text_flag flags (codes "client_user") config.client_user;
  password = text_flag flags (codes "password") config.password;
  resource = text_flag flags (codes "resource") config.resource;
  path_mappings = path_mappings;
  read_ahead_max = t.read_ahead_max;
  connection_max = t.connection_max;
  operation_timeout = t.operation_timeout;
  connection_idle_timeout = t.connection_idle_timeout;
  metadata_cache_timeout = t.metadata_cache_timeout;
  metadata_cache_cleanup_time = t.metadata_cache_cleanup_time;
  no_permission_check =
      setting_flag os flags (codes "no_permission_check") config.no_permission_check;
  no_set_xattr = setting_flag os flags (codes "no_set_xattr") config.no_set_xattr;
  start_new_transaction =
      not (setting_flag os flags (codes "no_transaction") (not config.start_new_transaction));
  uid = t.uid;
  gid = t.gid;
  system_user = text_flag flags (codes "sys_user") config.system_user;
  fuse_options = fuse_options_of flags config.fuse_options;
  profile_service_port = t.profile_service_port;
  pool_endpoint = text_flag flags (codes "pool_endpoint") config.pool_endpoint;
  monitor_url = text_flag flags (codes "monitor_url") config.monitor_url;
}

-- The other flags, over the configuration.
unfoldable pub merge_flags : (os : Os) → Flags → Config → Task os.World Config
merge_flags os flags config = do
  port ← some_or bad_number (positive_flag os flags (codes "port") config.port)
  path_mappings ← read_mappings os flags config
  tuning ← read_tuning os flags config
  return (overridden os flags port path_mappings tuning config)
