-- ===== src/Tests/Commands.antt =====
-- A command line, a child process and an iCommands environment.
use irodsfs.Base.{
  ◌≡◌, ◌↔◌, ◌⊎◌, refl, ℕ, true, false, some, [], ◌∷◌, codes, Text, same, get_last?, arith, ◌++◌,
  ◌+◌,
}
use irodsfs.Base.Dict.{lookup}
use irodsfs.Base.Ints.{ℤ, pos, negsuc}
use irodsfs.Os.{User}
use irodsfs.Users.{ids_of, get_current_system_user}
use irodsfs.Config.{
  correct_owner, Config, new_default_config, make_log_dir, make_dir, get_log_file_path,
}
use irodsfs.Config.Validation.Laws.{IsValidAccount, HasValidPaths, IsValidConnection}
use irodsfs.Config.Icommands.{mapping_of, session_path, load_icommands_environment_file}
use irodsfs.Config.Icommands.Laws.{
  HasAccount, MapsAtRoot, zone_home, first_given, load_icommands_environment_file_lem,
}
use irodsfs.Cmd.Words.{trim_space, trim, trim_left}
use irodsfs.Cmd.Urls.{IrodsAccessUrl, parse_irods_url}
use irodsfs.Cmd.Urls.Laws.{IsReadOf, parse_irods_url_iff}
use irodsfs.Cmd.Args.FlagValues.{set_common_flags}
use irodsfs.Cmd.Args.Laws.{
  HasDefaults, process_common_flags-accepted, unset_flags-HasDefaults, uid_flags_unused,
  url_settles_mappings,
}
use irodsfs.Cmd.Daemon.{
  Child, report_child_process, child_log_writer, child_process_read_config, finish_error,
}
use irodsfs.Cmd.Daemon.Laws.{Answers, WaitsForever, receive_ends}
use irodsfs.Cmd.Daemon.Handover.{accepted-handover}
use irodsfs.Mounts.{FileSystems}
use irodsfs.Cmd.Program.Background.{accepted-background}
use irodsfs.Users.Laws.{AreNamed}
use irodsfs.Cmd.Daemon.Laws.{NoReport}
use irodsfs.Fuse.{check_fuse, check_dev_fuse}
use irodsfs.Cmd.Program.{exit_ok, can_start, child_main, start_background, parent_main}
use irodsfs.Cmd.Program.Laws.{start_background-exit}
use irodsfs.Tests.Config.{
  print, parse, environment, os, config, flags, args, yaml, config_is_accepted,
}

process_common_flags-accepted_example :
    IsValidAccount config
    × HasValidPaths os config 0
    × IsValidConnection os config
    × ((before : Config) × (correct_owner os before ≡ some config))
    × ((last : Text) × (get_last? args ≡ some last) × (os.abs last 0 ≡ some config.mount_path))
process_common_flags-accepted_example =
    process_common_flags-accepted os yaml flags args config (some (codes "id.log.parent")) 0 0
      config_is_accepted

parse-print : (n : ℤ) → parse (print n) ≡ some n
parse-print (pos n) = refl
parse-print (negsuc n) = refl

unset_flags-HasDefaults_example : HasDefaults config
unfolding flags lookup same set_common_flags
unset_flags-HasDefaults_example =
    unset_flags-HasDefaults os yaml flags args config (some (codes "id.log.parent")) 0 0
      (record { ints = λ n h. refl; durations = parse-print; bools = refl })
      (record {
        readahead = refl;
        connection_max = refl;
        operation_timeout = refl;
        connection_idle_timeout = refl;
        metadata_cache_timeout = refl;
        no_permission_check = refl;
        no_set_xattr = refl;
        no_transaction = refl;
      })
      config_is_accepted

uid_flags_unused_example :
    (config.system_user ≡ (get_current_system_user os).0)
    × ((u : User) × (name : Text) × (os.lookup (get_current_system_user os).0 ≡ some u)
        × (ids_of u ≡ some (name, config.uid, config.gid)))
unfolding flags lookup same set_common_flags get_current_system_user
uid_flags_unused_example =
    uid_flags_unused os yaml flags args config (some (codes "id.log.parent")) 0 0 refl refl
      (λ e. cc) config_is_accepted

url_settles_mappings_example :
    (access : IrodsAccessUrl) × IsReadOf os (codes "irods://h/z/home") access
    × (config.zone ≡ access.zone)
    × (config.path_mappings ≡ mapping_of os access.path ∷ [])
url_settles_mappings_example =
    url_settles_mappings os yaml flags (codes "irods://h/z/home") (codes "/mnt") config
      (some (codes "id.log.parent")) 0 0 config_is_accepted

abbrev access : IrodsAccessUrl
access = record {
  user = codes "ann";
  password = [];
  host = codes "h";
  port = pos 1247;
  zone = codes "z";
  path = codes "/z/home";
}

parse_irods_url_iff_example :
    parse_irods_url os (codes "irods://h/z/home") ≡ some access
    ↔ IsReadOf os (codes "irods://h/z/home") access
parse_irods_url_iff_example = parse_irods_url_iff os (codes "irods://h/z/home") access

load_icommands_environment_file_lem_example :
    (c : Config) × (load_icommands_environment_file os (codes "/e") 0
      ≡ (some c, (new_default_config os 0).1))
    × HasAccount c environment.account
    × MapsAtRoot os c (
        first_given
          (environment.home
            ∷ environment.environment_dir
            ∷ session_path environment.session_dir
            ∷ [])
          (zone_home environment.account.client_zone environment.account.client_user))
load_icommands_environment_file_lem_example =
    load_icommands_environment_file_lem os (codes "/e") (codes "/e") environment 0 0 refl refl

are_named : AreNamed os
are_named = record {
  by_id = λ id u e. absurd (cc);
  id_name = λ id u e. absurd (cc);
  by_current = λ u e. e;
  current_name = λ u e n. absurd (ground (arith, e, n));
}

accepted-handover_example :
    child_process_read_config os yaml 0 ≡ (some (config, child_log_writer os config), 0)
unfolding make_log_dir make_dir get_log_file_path new_default_config same
accepted-handover_example =
    accepted-handover os yaml flags args config (some (codes "id.log.parent")) (codes "y") 0 0 0 0 0
      are_named (λ d text agree m. refl) (λ e. cc) (λ e. cc) config_is_accepted refl refl refl refl

receive_ends_example :
    Answers (codes "log" ∷ finish_error ∷ []) false
    ⊎ WaitsForever (codes "log" ∷ finish_error ∷ []) false
receive_ends_example = receive_ends (codes "log" ∷ finish_error ∷ []) false

-- A file system that starts.
abbrev mounted : FileSystems ℕ
mounted = record {
  Fs = ℕ;
  new_file_system = λ config w. (some 0, w);
  start = λ f w. (true, 1, w + 1);
  wait = λ f w. w;
  stop = λ f w. (f, w + 1);
  release = λ f w. (f, w + 2);
}

abbrev child : Child
child = record {
  takes = λ text. true;
  output = λ text. codes "log" ∷ ((child_main os yaml mounted 0).reports ++ []);
  output_fails = λ text. false;
}

no_report : NoReport (codes "log")
unfolding trim_space trim trim_left same
no_report = (refl, refl)

start_background-exit_example :
    start_background 2 yaml (some child) config ≡ some (child_main os yaml mounted 0).exit
start_background-exit_example =
    start_background-exit 2 os yaml mounted child config (codes "y") (codes "log" ∷ []) [] 0 refl
      refl refl (no_report, tt) (omega arith)

accepted-background_example :
    (parent_main 2 os yaml mounted (λ w. (some child, w)) flags args 0 ≡ some exit_ok)
    × (child_main os yaml mounted 0
        ≡ record { reports = report_child_process true ∷ []; exit = exit_ok; world = 4 })
unfolding make_log_dir make_dir get_log_file_path new_default_config same check_fuse check_dev_fuse
    can_start
accepted-background_example =
    accepted-background 2 os yaml flags args config (some (codes "id.log.parent")) (codes "y") 0 0 0
      0 0 0 1 2 mounted 0 1 1 (λ w. (some child, w)) child (codes "log" ∷ []) [] are_named
      (λ d text agree m. refl) (λ e. cc) (λ e. cc) config_is_accepted refl refl refl refl refl refl
      refl refl refl refl refl refl refl (no_report, tt) (omega arith)
