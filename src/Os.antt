-- ===== src/Os.antt =====
-- What commons/, cmd/ and utils/ work with: the calls of the operating system, of Go's standard library
-- and of other packages as one record of parameters, over a world of unknown type. A call that only
-- looks takes the world; one that may change it gives a new one. An error is `none`, or `false`.
use irodsfs.Base.{Bool, Option, List, Text}
use irodsfs.Base.Ints.{ℤ}

-- A user of the operating system, with the IDs where they are numbers of 32 bits.
pub record User : Type 0 where
  pub username : Text
  pub uid : Option ℤ
  pub gid : Option ℤ

-- `url.URL`: the user's name and password, `Hostname()` and `Port()` beside the fields.
pub record Url : Type 0 where
  pub scheme : Text  -- in lower case
  pub host : Text
  pub path : Text
  pub user : Option (Text × Option Text)
  pub hostname : Text
  pub port : Text

-- `FileInfo`; `is_writable` is `Mode().Perm() & 0200 == 0200`.
pub record FileInfo : Type 0 where
  pub is_dir : Bool
  pub is_writable : Bool
  pub is_char_device : Bool

pub data Stat : Type 0 where
  not_exist unreadable : Stat
  found : FileInfo → Stat

pub record DirEntry : Type 0 where
  pub name : Text
  pub is_dir : Bool

-- `VPathMapping` of irodsfs-common/vpath.
pub record PathMapping : Type 0 where
  pub irods_path : Text
  pub mapping_path : Text
  pub resource_type : Text
  pub read_only : Bool
  pub create_dir : Bool
  pub ignore_not_exist_error : Bool

-- `IRODSAccount` of go-irodsclient, as an iCommands environment gives it.
pub record Account : Type 0 where
  pub auth_scheme : Text
  pub cs_negotiation_policy : Text
  pub client_server_negotiation : Bool
  pub host : Text
  pub port : ℤ
  pub client_user : Text
  pub client_zone : Text
  pub proxy_user : Text
  pub password : Text
  pub default_resource : Text
  pub ca_certificate_file : Text
  pub ca_certificate_path : Text
  pub encryption_key_size : ℤ
  pub encryption_algorithm : Text
  pub salt_size : ℤ
  pub hash_rounds : ℤ

-- An iCommands environment that has been loaded; a session need not be there.
pub record Icommands : Type 0 where
  pub account : Account
  pub session_dir : Option Text
  pub environment_dir : Text
  pub home : Text

pub record Os : Type 1 where
  pub World : Type 0
  -- package os/user
  pub lookup : Text → Option User
  pub lookup_id : ℤ → Option User
  pub current : Option User
  -- packages os, os/exec, path and path/filepath
  pub goos : Text
  pub stat : Text → World → Stat
  pub mkdir_all : Text → World → Bool × World
  pub getwd : World → Option Text
  pub read_file : Text → World → Option Text
  pub read_dir : Text → World → Option (List DirEntry)
  pub look_path : Text → World → Option Text
  -- a command, its arguments: what it wrote to its standard error, and whether it succeeded
  pub run : Text → List Text → World → (Text × Bool) × World
  pub path_join : Text → Text → Text
  pub path_clean : Text → Text
  pub file_dir : Text → Text
  pub file_ext : Text → Text
  pub abs : Text → World → Option Text
  -- standard input: all of it, one word, a password
  pub read_stdin : World → Option Text × World
  pub scan_word : World → Text × World
  pub read_password : World → Option Text × World
  -- packages strconv and time; `parse_bool` is false where there is an error
  pub parse_int32 : Text → Option ℤ
  pub parse_bool : Text → Bool
  pub parse_duration : Text → Option ℤ
  pub format_int : ℤ → Text
  pub format_duration : ℤ → Text
  -- packages net/url and rs/xid
  pub parse_url : Text → Option Url
  pub new_id : World → Text × World
  -- irodsfs-common/vpath
  pub are_valid_mappings : List PathMapping → Bool
  pub unmarshal_mappings : Text → Option (List PathMapping)
  pub directory_mapping : Text
  -- go-irodsclient: its authentication schemes, negotiation policies and iCommands environments
  pub native_scheme : Text
  pub require_tcp : Text
  pub is_pam : Text → Bool
  pub uses_ssl : Text → Bool  -- `GetCSNegotiationPolicy`, where an error stands for TCP
  pub load_icommands : Text → World → Option Icommands × World
