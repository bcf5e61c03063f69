-- ===== src/Config/Icommands.antt =====
-- commons/icommands.go: reading the environment of iCommands. An error is `none`; the messages to the
-- log are left out.
pub mod Laws
use irodsfs.Base.{
  Bool, true, false, ◌||◌, Option, none, some, List, Text, codes, same, has_prefix, length, ◌==◌,
  [], ◌∷◌, ◌++◌, if◌then◌else◌,
}
use irodsfs.Os.{PathMapping, DirEntry, not_exist, unreadable, found, Icommands, Os}
use irodsfs.Config.{Config, new_default_config, correct_owner}

unfoldable pub is_environment_entry : DirEntry → Bool
is_environment_entry entry =
    if entry.is_dir
    then false
    else has_prefix entry.name (codes "irods_environment.json.")
      || same entry.name (codes "irods_environment.json")
      || same entry.name (codes ".irodsA")

unfoldable pub has_environment : List DirEntry → Bool
unfolding is_environment_entry
has_environment [] = false
has_environment (entry ∷ entries) =
    if is_environment_entry entry then true else has_environment entries

unfoldable pub is_icommands_env_dir : (os : Os) → Text → os.World → Bool
unfolding has_environment
is_icommands_env_dir os dir_path w = elim (os.stat dir_path w) [
  | found st ↦
      if st.is_dir
      then elim (os.read_dir dir_path w) [ none ↦ false | some entries ↦ has_environment entries ]
      else false
  | not_exist ↦ false
  | unreadable ↦ false
]

-- The mapping of a collection at the root of the mount.
abbrev pub mapping_of : Os → Text → PathMapping
mapping_of os irods_path = record {
  irods_path = irods_path;
  mapping_path = codes "/";
  resource_type = os.directory_mapping;
  read_only = false;
  create_dir = false;
  ignore_not_exist_error = false;
}

-- `if len(path) > 0 { config.PathMappings = … }`
abbrev pub map_path : Os → Text → List PathMapping → List PathMapping
map_path os path mappings = if length path == 0 then mappings else mapping_of os path ∷ []

abbrev pub session_path : Option Text → Text
session_path none = []
session_path (some path) = path

-- The mappings after the session, the environment's directory and its home, each over the last.
unfoldable pub environment_mappings : Os → Icommands → List PathMapping → List PathMapping
environment_mappings os env mappings =
    map_path os env.home
      (map_path os env.environment_dir (map_path os (session_path env.session_dir) mappings))

abbrev pub home_path : Text → Text → Text
home_path zone user = codes "/" ++ (zone ++ (codes "/home/" ++ user))

-- `Fill more` and the mappings.
unfoldable pub fill_config : Os → Icommands → Config → Config
unfolding environment_mappings
fill_config os env config =
    let a = env.account in
    let mappings = environment_mappings os env config.path_mappings in
    record config {
      auth_scheme = a.auth_scheme;
      cs_negotiation_policy = a.cs_negotiation_policy;
      client_server_negotiation = a.client_server_negotiation;
      host = a.host;
      port = a.port;
      client_user = a.client_user;
      zone = a.client_zone;
      proxy_user = a.proxy_user;
      password = a.password;
      resource = a.default_resource;
      ca_certificate_file = a.ca_certificate_file;
      ca_certificate_path = a.ca_certificate_path;
      encryption_key_size = a.encryption_key_size;
      encryption_algorithm = a.encryption_algorithm;
      salt_size = a.salt_size;
      hash_rounds = a.hash_rounds;
      path_mappings =
          if length mappings == 0
          then mapping_of os (home_path a.client_zone a.client_user) ∷ []
          else mappings;
    }

unfoldable pub load_icommands_environment_file :
    (os : Os) → Text → os.World → Option Config × os.World
unfolding fill_config
load_icommands_environment_file os config_path w = elim (os.abs config_path w) [
  | none ↦ (none, w)
  | some config_path ↦
      let (loaded, w') = os.load_icommands config_path w in
      elim loaded [
        | none ↦ (none, w')
        | some env ↦
            let (config, w') = new_default_config os w' in (some (fill_config os env config), w')
      ]
]

unfoldable pub load_icommands_environment_dir :
    (os : Os) → Text → os.World → Option Config × os.World
unfolding is_icommands_env_dir
load_icommands_environment_dir os config_dir_path w = elim (os.abs config_dir_path w) [
  | none ↦ (none, w)
  | some config_dir_path ↦
      if is_icommands_env_dir os config_dir_path w
      then load_icommands_environment_file os
          (os.path_join config_dir_path (codes "irods_environment.json")) w
      else (none, w)
]

-- `NewConfigFromICommandsEnvironment` of config.go.
unfoldable pub new_config_from_icommands_environment :
    (os : Os) → Text → os.World → Option Config × os.World
new_config_from_icommands_environment os config_path w =
    let (loaded, w') = load_icommands_environment_file os config_path w in
    elim loaded [ none ↦ (none, w') | some config ↦ (correct_owner os config, w') ]
