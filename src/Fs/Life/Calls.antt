-- ===== src/Fs/Life/Calls.antt =====
-- fs.go: the constructors of other packages that `NewFileSystem`, `Start` and `Release` call, as a record of
-- parameters over a world, and the options that are given to them.
use irodsfs.Base.{ℕ, Bool, Option, List, Text}
use irodsfs.Base.Ints.{ℤ}
use irodsfs.Os.{PathMapping}
use irodsfs.Config.{Config, MetadataCacheTimeoutSetting}
use irodsfs.Env.{Node}

pub data AuthScheme : Type 0 where
  auth_native auth_pam auth_unknown : AuthScheme
  auth_other : Text → AuthScheme

-- The arguments of `NewFileSystemConfig` that are not constants.
pub record FileSystemConfig : Type 0 where
  pub connection_lifespan : ℤ
  pub operation_timeout : ℤ
  pub connection_idle_timeout : ℤ
  pub connection_max : ℤ
  pub metadata_cache_timeout : ℤ
  pub metadata_cache_cleanup_time : ℤ
  pub cache_timeout_settings : List MetadataCacheTimeoutSetting
  pub start_new_transaction : Bool
  pub invalidate_parent_entry_cache_immediately : Bool

-- `fusefs.Options`, as far as it is set and not to a constant.
pub record FuseOptions : Type 0 where
  pub allow_other : Bool
  pub debug : Bool
  pub uid : ℕ
  pub gid : ℕ
  pub max_read_ahead : ℤ

-- go-irodsclient, irodsfs-common, irodsfs-pool and go-fuse; an error is `none`.
pub record Services (W : Type 0) : Type 1 where
  pub Account : Type 0
  pub SslConfig : Type 0
  pub Negotiation : Type 0
  pub Pool : Type 0
  pub Client : Type 0
  pub Reporter : Type 0
  pub Instance : Type 0
  pub Server : Type 0
  pub get_auth_scheme : Text → AuthScheme
  pub get_cs_negotiation_require : Text → Option Negotiation
  pub require_ssl : Negotiation
  -- host, port, client user and zone, proxy user and zone, scheme, password, resource
  pub create_account :
      Text → ℤ → Text → Text → Text → Text → AuthScheme → Text → Text → Option Account
  -- certificate file and path, key size, algorithm, salt size, hash rounds
  pub create_ssl_config : Text → Text → ℤ → Text → ℤ → ℤ → Option SslConfig
  pub set_ssl_configuration : SslConfig → Account → Account
  pub set_cs_negotiation : Bool → Negotiation → Account → Account
  pub client_user : Account → Text
  pub connect_pool : Text → ℤ → Text → W → Option Pool × W
  pub new_session : Pool → Account → W → Option Client × W
  pub new_client_direct : Account → FileSystemConfig → W → Option Client × W
  pub new_vpath_manager : Client → List PathMapping → W → Bool × W
  pub new_reporter : Text → W → Reporter × W
  pub start_instance : Reporter → Config → AuthScheme → W → Option Instance × W
  pub list_user_groups : Client → Text → W → Option (List Text) × W
  pub terminate_instance : Instance → W → W
  pub release_reporter : Reporter → W → W
  pub release_client : Client → W → W
  pub mount : Text → Node → FuseOptions → W → Option Server × W
  pub wait_server : Server → W → W
  pub unmount_fuse : Text → W → Bool × W  -- that of Fuse, for a world of its own
