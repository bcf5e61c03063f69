-- ===== src/Config/Icommands/Laws.antt =====
-- What an iCommands environment is turned into.
use irodsfs.Base.{
  ◌≡◌, refl, false, some, List, Text, codes, length, ◌==◌, ◌++◌, [], ◌∷◌, arith, if◌then◌else◌,
}
use irodsfs.Os.{PathMapping, Account, Icommands, Os}
use irodsfs.Config.{Config, new_default_config}
use irodsfs.Config.Icommands.{
  mapping_of, session_path, home_path, environment_mappings, fill_config,
  load_icommands_environment_file,
}

-- The first text that is not empty.
unfoldable pub first_given : List Text → Text → Text
first_given [] last = last
first_given (path ∷ paths) last = if length path == 0 then first_given paths last else path

-- Every setting of the account, of the connection and of the encryption is that of the environment.
pub record HasAccount (c : Config) (a : Account) : Type 0 where
  pub host : c.host ≡ a.host
  pub port : c.port ≡ a.port
  pub client_user : c.client_user ≡ a.client_user
  pub proxy_user : c.proxy_user ≡ a.proxy_user
  pub zone : c.zone ≡ a.client_zone
  pub password : c.password ≡ a.password
  pub auth_scheme : c.auth_scheme ≡ a.auth_scheme
  pub resource : c.resource ≡ a.default_resource
  pub cs_negotiation_policy : c.cs_negotiation_policy ≡ a.cs_negotiation_policy
  pub client_server_negotiation : c.client_server_negotiation ≡ a.client_server_negotiation
  pub ca_certificate_file : c.ca_certificate_file ≡ a.ca_certificate_file
  pub ca_certificate_path : c.ca_certificate_path ≡ a.ca_certificate_path
  pub encryption_key_size : c.encryption_key_size ≡ a.encryption_key_size
  pub encryption_algorithm : c.encryption_algorithm ≡ a.encryption_algorithm
  pub salt_size : c.salt_size ≡ a.salt_size
  pub hash_rounds : c.hash_rounds ≡ a.hash_rounds

-- The one mapping of a configuration: of a collection at the root of the mount, for reading and writing,
-- which has to be there and is not created.
abbrev pub MapsAtRoot : Os → Config → Text → Type 0
MapsAtRoot os c path =
    (p : PathMapping) × (c.path_mappings ≡ p ∷ [])
    × (p.irods_path ≡ path)
    × (p.mapping_path ≡ codes "/")
    × (p.resource_type ≡ os.directory_mapping)
    × (p.read_only ≡ false)
    × (p.create_dir ≡ false)
    × (p.ignore_not_exist_error ≡ false)

-- The home of a user in a zone.
abbrev pub zone_home : Text → Text → Text
zone_home zone user = codes "/" ++ (zone ++ (codes "/home/" ++ user))

one_mapping :
    (os : Os) (env : Icommands) (c : Config)
    → c.path_mappings ≡ []
    → (fill_config os env c).path_mappings
      ≡ mapping_of os (
          first_given
            (env.home ∷ env.environment_dir ∷ session_path env.session_dir ∷ [])
            (home_path env.account.client_zone env.account.client_user))
        ∷ []
unfolding fill_config environment_mappings first_given
one_mapping os env c e = ground (arith, e)

mappings_lem :
    (os : Os) (env : Icommands) (c : Config)
    → c.path_mappings ≡ []
    → MapsAtRoot os (fill_config os env c) (
        first_given
          (env.home ∷ env.environment_dir ∷ session_path env.session_dir ∷ [])
          (zone_home env.account.client_zone env.account.client_user))
mappings_lem os env c e =
    let path =
      first_given (env.home ∷ env.environment_dir ∷ session_path env.session_dir ∷ [])
        (zone_home env.account.client_zone env.account.client_user) in
    (mapping_of os path, one_mapping os env c e, refl, refl, refl, refl, refl, refl)

account_lem :
    (os : Os) (env : Icommands) (c : Config) → HasAccount (fill_config os env c) env.account
unfolding fill_config
account_lem os env c = record {
  host = refl;
  port = refl;
  client_user = refl;
  proxy_user = refl;
  zone = refl;
  password = refl;
  auth_scheme = refl;
  resource = refl;
  cs_negotiation_policy = refl;
  client_server_negotiation = refl;
  ca_certificate_file = refl;
  ca_certificate_path = refl;
  encryption_key_size = refl;
  encryption_algorithm = refl;
  salt_size = refl;
  hash_rounds = refl;
}

no_mappings : (os : Os) (w : os.World) → (new_default_config os w).0.path_mappings ≡ []
unfolding new_default_config
no_mappings os w = refl

-- Reading an iCommands environment gives every setting of its account, and one mapping, at the root of
-- the mount: of the home if the environment names one, else of its current directory, else of the
-- session's current directory, else of the collection of the user under `/home` of the zone.
pub load_icommands_environment_file_lem :
    (os : Os) (config_path path : Text) (env : Icommands) (w v : os.World)
    → os.abs config_path w ≡ some path
    → os.load_icommands path w ≡ (some env, v)
    → (c : Config) × (load_icommands_environment_file os config_path w
        ≡ (some c, (new_default_config os v).1))
      × HasAccount c env.account
      × MapsAtRoot os c (
          first_given
            (env.home ∷ env.environment_dir ∷ session_path env.session_dir ∷ [])
            (zone_home env.account.client_zone env.account.client_user))
unfolding load_icommands_environment_file
load_icommands_environment_file_lem os config_path path env w v a l = (
  fill_config os env (new_default_config os v).0,
  ground (arith, a, l),
  account_lem os env (new_default_config os v).0,
  mappings_lem os env (new_default_config os v).0 (no_mappings os v),
)
