-- ===== src/Cmd/Urls.antt =====
-- cmd/commons/irods_url.go: irods://host:port/zone/path. An error is `none`.
pub mod Laws
use irodsfs.Base.{
  ℕ, zero, suc, Option, none, some, List, Text, codes, length, ◌==◌, [], ◌∷◌, has_prefix, take,
  if◌then◌else◌, Bool,
}
use irodsfs.Base.Ints.{ℤ, pos}
use irodsfs.Cmd.Words.{index, trim}
use irodsfs.Os.{Url, Os}
use irodsfs.Config.{Config}
use irodsfs.Config.Validation.{is_positive}
use irodsfs.Config.Icommands.{mapping_of}

pub record IrodsAccessUrl : Type 0 where
  pub user : Text
  pub password : Text
  pub host : Text
  pub port : ℤ
  pub zone : Text
  pub path : Text

abbrev pub user_of : Option (Text × Option Text) → Text
user_of none = []
user_of (some (name, password)) = name

abbrev pub password_of : Option (Text × Option Text) → Text
password_of none = []
password_of (some (name, none)) = []
password_of (some (name, some password)) = password

-- `none` is an error.
abbrev pub port_of : Os → Text → Option ℤ
port_of os port = if length port == 0 then some (pos 1247) else os.parse_int32 port

abbrev pub is_slash : ℕ → Bool
is_slash b = b == b'/'

-- The zone in what follows the first slash; empty where the path is left at "/".
unfoldable pub zone_of : Text → Text
zone_of s = elim (index s b'/') [
  | none ↦ trim is_slash s
  | some zero ↦ []
  | some (suc i) ↦ trim is_slash (take (suc i) s)
]

-- The zone and the path in a clean path.
unfoldable pub split_path : Text → Option (Text × Text)
split_path [] = none
split_path (b ∷ s) =
    if b == b'/' then (if length (zone_of s) == 0 then none else some (zone_of s, b ∷ s)) else none

abbrev access_of : Url → ℤ → Text × Text → IrodsAccessUrl
access_of u port (zone, path) = record {
  user = user_of u.user;
  password = password_of u.user;
  host = u.hostname;
  port = port;
  zone = zone;
  path = path;
}

unfoldable pub parse_irods_url : Os → Text → Option IrodsAccessUrl
parse_irods_url os input_url =
    if has_prefix input_url (codes "irods://")
    then elim (os.parse_url input_url) [
      | none ↦ none
      | some u ↦ elim (port_of os u.port) [
        | none ↦ none
        | some port ↦ elim (split_path (os.path_clean u.path)) [
          | none ↦ none
          | some at ↦ some (access_of u port at)
        ]
      ]
    ]
    else none

-- `if len(value) > 0 { field = value }`
abbrev pub unless_empty : Text → Text → Text
unless_empty value old = if length value == 0 then old else value

-- What the URL says, put over the configuration.
unfoldable pub update_config : Os → IrodsAccessUrl → Config → Config
update_config os access config =
    let proxy_user = unless_empty access.user config.proxy_user in
    record config {
      host = unless_empty access.host config.host;
      port = if is_positive access.port then access.port else config.port;
      proxy_user = proxy_user;
      password = unless_empty access.password config.password;
      zone = unless_empty access.zone config.zone;
      path_mappings =
          if length access.path == 0 then config.path_mappings else mapping_of os access.path ∷ [];
      client_user = unless_empty config.client_user proxy_user;
    }

unfoldable pub update_config_from_irods_url : Os → Text → Config → Option Config
update_config_from_irods_url os input_url config = elim (parse_irods_url os input_url) [
  | none ↦ none
  | some access ↦ some (update_config os access config)
]
