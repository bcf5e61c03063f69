-- ===== src/Fs/Life.antt =====
-- fs.go: `NewFileSystem`, `Start`, `Stop`, `Wait` and `Release` of `IRODSFS`, and `GetFuseOptions`. The
-- constructors of the packages that they call are parameters, over the world of the handlers' calls. The
-- path mapping and the inode manager are in that world.
pub mod Calls
pub mod Laws
pub mod Shutdown
pub mod Serving
use irodsfs.Base.{
  ℕ, ◌-◌, ◌%◌, ◌^◌, Bool, true, false, ◌&&◌, Option, none, some, List, Text, codes, length, ◌==◌,
  [], ◌∷◌, if◌then◌else◌,
}
use irodsfs.Base.Ints.{ℤ, pos, negsuc}
use irodsfs.Os.{PathMapping}
use irodsfs.Config.{Config, MetadataCacheTimeoutSetting}
use irodsfs.HandleMap.{FileHandleMap, new_file_handle_map}
use irodsfs.Env.{External, Sys, Node, failed, replied}
use irodsfs.Fs.{root}
use irodsfs.Mounts.{FileSystems}
use irodsfs.Fs.Life.Calls.{
  AuthScheme, auth_native, auth_pam, auth_unknown, auth_other, FileSystemConfig, FuseOptions,
  Services,
}

-- `uint32(z)`
abbrev pub uint32 : ℤ → ℕ
uint32 (pos n) = n % 2 ^ 32
uint32 (negsuc n) = 2 ^ 32 - 1 - n % 2 ^ 32

unfoldable pub get_fuse_options : Config → FuseOptions
get_fuse_options config = record {
  allow_other = config.allow_other;
  debug = config.debug && config.foreground;
  uid = uint32 config.uid;
  gid = uint32 config.gid;
  max_read_ahead = config.read_ahead_max;
}

-- The settings that name a path.
unfoldable pub cache_timeouts : List MetadataCacheTimeoutSetting → List MetadataCacheTimeoutSetting
cache_timeouts [] = []
cache_timeouts (setting ∷ settings) =
    let rest = cache_timeouts settings in if length setting.path == 0 then rest else setting ∷ rest

unfoldable pub file_system_config : Config → FileSystemConfig
unfolding cache_timeouts
file_system_config config = record {
  connection_lifespan = config.connection_lifespan;
  operation_timeout = config.operation_timeout;
  connection_idle_timeout = config.connection_idle_timeout;
  connection_max = config.connection_max;
  metadata_cache_timeout = config.metadata_cache_timeout;
  metadata_cache_cleanup_time = config.metadata_cache_cleanup_time;
  cache_timeout_settings = cache_timeouts config.metadata_cache_timeout_settings;
  start_new_transaction = config.start_new_transaction;
  invalidate_parent_entry_cache_immediately = config.invalidate_parent_entry_cache_immediately;
}

-- An unknown scheme counts as the native one.
abbrev pub known_scheme : AuthScheme → AuthScheme
known_scheme auth_unknown = auth_native
known_scheme scheme = scheme

-- `if x != nil { … }` of a release.
abbrev pub released : {W A : Type 0} → Option A → (A → W → W) → W → W
released none release w = w
released (some a) release w = release a w

module _ (E : External) (S : Services E.World) where
  abbrev pub auth_scheme_of : Config → AuthScheme
  auth_scheme_of config = known_scheme (S.get_auth_scheme config.auth_scheme)

  abbrev with_ssl : Config → AuthScheme → S.Negotiation → S.SslConfig → S.Account → S.Account
  with_ssl config auth_pam negotiation ssl account =
      S.set_cs_negotiation true S.require_ssl (S.set_ssl_configuration ssl account)
  with_ssl config scheme negotiation ssl account =
      if config.client_server_negotiation
      then S.set_cs_negotiation true negotiation (S.set_ssl_configuration ssl account)
      else account

  unfoldable pub account_of : Config → Option (S.Account)
  account_of config = elim (S.get_cs_negotiation_require config.cs_negotiation_policy) [
    | none ↦ none
    | some negotiation ↦
        elim (S.create_account config.host config.port config.client_user config.zone
          config.proxy_user config.zone (auth_scheme_of config) config.password config.resource) [
            | none ↦ none
            | some account ↦
                elim (S.create_ssl_config config.ca_certificate_file config.ca_certificate_path
                  config.encryption_key_size config.encryption_algorithm config.salt_size
                  config.hash_rounds) [
                    | none ↦ none
                    | some ssl ↦
                        some (with_ssl config (auth_scheme_of config) negotiation ssl account)
                  ]
          ]
  ]

  -- By the pool's server, or directly.
  unfoldable pub connect : Config → S.Account → E.World → Option (S.Client) × E.World
  connect config account w =
      if length config.pool_endpoint == 0
      then S.new_client_direct account (file_system_config config) w
      else let (pool, v) =
          S.connect_pool config.pool_endpoint config.operation_timeout config.instance_id w in
        elim pool [ none ↦ (none, v) | some pool ↦ S.new_session pool account v ]

  pub record Irodsfs : Type 0 where
    pub config : Config
    pub fuse_server : Option (S.Server)
    pub fs_client : Option (S.Client)
    pub file_handle_map : Option FileHandleMap
    pub user_groups : List Text
    pub uid : ℕ
    pub gid : ℕ
    pub report_client : Option (S.Reporter)
    pub instance_report_client : Option (S.Instance)
    pub operation_id_current : ℕ
    pub terminated : Bool

  -- The monitoring service, if one is named; its error is only logged.
  unfoldable pub start_reporting :
      Config → E.World → Option (S.Reporter) × Option (S.Instance) × E.World
  start_reporting config w =
      if length config.monitor_url == 0
      then (none, none, w)
      else let (reporter, v) = S.new_reporter config.monitor_url w in
        let (started, v') = S.start_instance reporter config (auth_scheme_of config) v in
        (some reporter, started, v')

  abbrev pub new_irodsfs :
      Config → S.Client → List Text → Option (S.Reporter) → Option (S.Instance) → Irodsfs
  new_irodsfs config client groups reporter started = record {
    config = config;
    fuse_server = none;
    fs_client = some client;
    file_handle_map = some new_file_handle_map;
    user_groups = groups;
    uid = uint32 config.uid;
    gid = uint32 config.gid;
    report_client = reporter;
    instance_report_client = started;
    operation_id_current = 0;
    terminated = false;
  }

  -- What follows the connection: the mappings, the reports and the groups of the user.
  unfoldable pub with_client : Config → S.Account → S.Client → E.World → Option Irodsfs × E.World
  with_client config account client w =
      let (mapped, v) = S.new_vpath_manager client config.path_mappings w in
      if mapped
      then (let (reporter, started, v') = start_reporting config v in
          let (groups, v'') = S.list_user_groups client (S.client_user account) v' in
          elim groups [
            | none ↦ (none, v'')
            | some groups ↦ (some (new_irodsfs config client groups reporter started), v'')
          ])
      else (none, v)

  unfoldable pub new_file_system : Config → E.World → Option Irodsfs × E.World
  new_file_system config w = elim (account_of config) [
    | none ↦ (none, w)
    | some account ↦
        let (client, v) = connect config account w in
        elim client [ none ↦ (none, v) | some client ↦ with_client config account client v ]
  ]

  -- What the handlers see of the file system; no handle is open before it is mounted.
  abbrev pub sys_of : Irodsfs → E.World → Sys E
  sys_of fs w = record {
    terminated = fs.terminated;
    operation_id_current = fs.operation_id_current;
    file_handle_map = elim (fs.file_handle_map) [ none ↦ new_file_handle_map | some m ↦ m ];
    cells = [];
    world = w;
  }

  unfoldable pub start : Irodsfs → E.World → Bool × Irodsfs × E.World
  start fs w =
      let (reply, s) = root E (sys_of fs w) in
      elim reply [
        | failed e ↦ (false, fs, s.world)
        | replied node ↦
            let (server, v) =
              S.mount fs.config.mount_path node (get_fuse_options fs.config) s.world in
            elim server [
              | none ↦ (false, fs, v)
              | some server ↦ (true, record fs { fuse_server = some server }, v)
            ]
      ]

  -- The handlers' view of this is `stop` of the parent module.
  unfoldable pub stop_serving : Irodsfs → E.World → Irodsfs × E.World
  stop_serving fs w = if fs.terminated then (fs, w) else (
    record fs { fuse_server = none; terminated = true },
    (S.unmount_fuse fs.config.mount_path w).1,
  )

  -- With no server it panics, and the deferred function of `run` goes on at once.
  unfoldable pub wait : Irodsfs → E.World → E.World
  wait fs w = elim (fs.fuse_server) [ none ↦ w | some server ↦ S.wait_server server w ]

  unfoldable pub release : Irodsfs → E.World → Irodsfs × E.World
  release fs w = (
    record fs {
      instance_report_client = none;
      report_client = none;
      file_handle_map = none;
      fs_client = none;
    },
    released fs.fs_client S.release_client (
        released fs.report_client S.release_reporter
          (released fs.instance_report_client S.terminate_instance w)),
  )

  abbrev pub file_systems : FileSystems E.World
  file_systems = record {
    Fs = Irodsfs;
    new_file_system = new_file_system;
    start = start;
    wait = wait;
    stop = stop_serving;
    release = release;
  }
