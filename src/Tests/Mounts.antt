-- ===== src/Tests/Mounts.antt =====
-- A file system on the small server, mounted and not.
use irodsfs.Base.{
  ◌≡◌, refl, ℕ, ◌+◌, not, arith, true, Option, none, some, List, [], ◌∷◌, codes, Text,
}
use irodsfs.Env.{Entry}
use irodsfs.Fs.Life.{
  account_of, connect, Irodsfs, new_irodsfs, with_client, new_file_system, start_reporting,
}
use irodsfs.Fs.Life.Calls.{auth_native, Services}
use irodsfs.Base.Ints.{pos}
use irodsfs.Fs.Requests.{Request, open_file, handle, to_read, to_release}
use irodsfs.Fs.Life.Laws.{failed_new_file_system-keeps}
use irodsfs.Fs.Life.Shutdown.{
  EndCall, to_stop, to_release, has_stop, has_release, once, end_by_all, Counts, shutdown_once,
}
use irodsfs.Tests.Config.{config}
use irodsfs.Tests.Server.{server, collection, document}
use irodsfs.Tests.FileHandles.{reading}

-- The groups of the user, or an error. An unmounting leaves a directory in the world, and the release
-- of a client a file.
abbrev services : Option (List Text) → Services (List Entry)
services groups = record {
  Account = Text;
  SslConfig = Unit {0};
  Negotiation = Text;
  Pool = Unit {0};
  Client = Unit {0};
  Reporter = Unit {0};
  Instance = Unit {0};
  Server = Unit {0};
  get_auth_scheme = λ text. auth_native;
  get_cs_negotiation_require = λ text. some text;
  require_ssl = codes "ssl";
  create_account = λ host port user zone proxy proxy_zone scheme password resource. some user;
  create_ssl_config = λ file path size algorithm salt rounds. some tt;
  set_ssl_configuration = λ ssl account. account;
  set_cs_negotiation = λ b negotiation account. account;
  client_user = λ account. account;
  connect_pool = λ endpoint timeout id w. (some tt, w);
  new_session = λ pool account w. (some tt, w);
  new_client_direct = λ account config w. (some tt, w);
  new_vpath_manager = λ client mappings w. (true, w);
  new_reporter = λ url w. (tt, w);
  start_instance = λ reporter config scheme w. (some tt, w);
  list_user_groups = λ client user w. (groups, w);
  terminate_instance = λ i w. w;
  release_reporter = λ r w. w;
  release_client = λ c w. document ∷ w;
  mount = λ path node options w. (some tt, w);
  wait_server = λ s w. w;
  unmount_fuse = λ path w. (true, collection ∷ w);
}

abbrev made : Irodsfs server (services (some []))
made = new_irodsfs server (services (some [])) config tt [] none none

abbrev world : List Entry
world = collection ∷ []

abbrev mounted : Irodsfs server (services (some []))
mounted = record made { fuse_server = some tt }

-- The file is opened, read and released.
abbrev requests : List Request
requests =
    open_file 2 (codes "/m/f") 0
    ∷ handle reading (to_read (0 ∷ []) (pos 0))
    ∷ handle reading to_release
    ∷ []

-- That the client is connected: its release adds to the world.
abbrev IsConnected : List Entry → Type 0
IsConnected w = w ≡ collection ∷ []

failed_new_file_system-keeps_example : IsConnected (collection ∷ [])
unfolding new_file_system account_of connect with_client start_reporting
failed_new_file_system-keeps_example =
    failed_new_file_system-keeps server (services none) IsConnected config (codes "ann") tt
      (collection ∷ []) (collection ∷ []) (collection ∷ [])
      (record {
        mappings = λ client l w p. p;
        reporter = λ url w p. p;
        instance_report = λ reporter config scheme w p. p;
        groups = λ client user w p. p;
      })
      refl refl refl refl

abbrev directories : List Entry → ℕ
directories [] = 0
directories (entry ∷ w) = directories w + once entry.is_dir

abbrev documents : List Entry → ℕ
documents [] = 0
documents (entry ∷ w) = documents w + once (not entry.is_dir)

abbrev counts : Counts server (services (some []))
counts = record {
  unmounts = directories;
  releases = documents;
  unmount = λ path w. (refl, omega arith);
  client = λ client w. (omega arith, refl);
  reporter = λ reporter w. (refl, refl);
  instance_report = λ i w. (refl, refl);
}

-- The signal handler comes first, then the deferred function.
abbrev calls : List EndCall
calls = to_stop ∷ to_stop ∷ to_release ∷ []

shutdown_once_example :
    (counts.unmounts (end_by_all server (services (some [])) calls made []).1
      ≡ counts.unmounts [] + once (has_stop calls))
    × (counts.releases (end_by_all server (services (some [])) calls made []).1
        ≡ counts.releases [] + once (has_release calls))
shutdown_once_example = shutdown_once server (services (some [])) counts calls made tt [] refl refl
