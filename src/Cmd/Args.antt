-- ===== src/Cmd/Args.antt =====
-- cmd/commons/args.go: `ProcessCommonFlags`. Levels of the log are left out.
pub mod FlagValues
pub mod Overrides
pub mod Steps
pub mod Merging
pub mod Laws
use irodsfs.Base.{
  ℕ, Bool, true, false, not, ◌||◌, Option, none, some, List, Text, codes, same, length, ◌==◌, [],
  ◌∷◌, ◌++◌, get_last?, if◌then◌else◌,
}
use irodsfs.Base.Ints.{ℤ, pos, negsuc}
use irodsfs.Os.{PathMapping, Os}
use irodsfs.Config.{
  Config, Yaml, minutes, read_ahead_max_default, connection_max_default, new_default_config,
  new_config_from_yaml, correct_owner, get_log_file_path, make_log_dir, is_yaml_file,
}
use irodsfs.Config.Icommands.{load_icommands_environment_dir}
use irodsfs.Config.Validation.{ConfigError, is_positive, validate}
use irodsfs.Cmd.Words.{trim, split}
use irodsfs.Cmd.Urls.{unless_empty, update_config_from_irods_url}
use irodsfs.Cmd.Args.FlagValues.{
  Flags, set_common_flags, CommandError, unreadable_config, no_log_dir, bad_number, bad_duration,
  bad_mappings, no_mount_point, bad_url, no_password, bad_mount_point, no_owner, invalid, Result,
  ok, err, Task, ◌>>=◌, ◌>>◌, return, some_or, call, check, value_of, text_flag, bool_flag,
  positive_flag, duration_flag, setting_flag,
}
use irodsfs.Cmd.Args.Overrides.{
  fuse_options_of, read_mappings, Tuning, read_tuning, overridden, merge_flags,
}

-- The configuration of the flag `config`, and whether standard input has been read.
unfoldable pub read_config : (os : Os) → Yaml → Flags → Task os.World (Config × Bool)
read_config os yaml flags =
    let config_path = value_of (flags (codes "config")) in
    if length config_path == 0
    then (λ w. let (config, w') = new_default_config os w in (ok (config, false), w'))
    else if same config_path (codes "-")
    then (do
      yaml_bytes ← call unreadable_config os.read_stdin
      config ← call unreadable_config (new_config_from_yaml os yaml yaml_bytes)
      return (config, true))
    else λ w.
        if is_yaml_file os config_path w
        then (do
          yaml_bytes ← some_or unreadable_config (os.read_file config_path w)
          config ← call unreadable_config (new_config_from_yaml os yaml yaml_bytes)
          return (config, false))
            w
        else (do
          config ← call unreadable_config (load_icommands_environment_dir os config_path)
          return (config, false))
            w

-- The modes, which flags can only switch on, and the paths.
unfoldable pub set_modes : Os → Flags → Config → Config
set_modes os flags config =
    let log_path = text_flag flags (codes "log_path") config.log_path in
    let named = record config {
      debug = bool_flag os flags (codes "debug") || config.debug;
      foreground = bool_flag os flags (codes "foreground") || config.foreground;
      profile = bool_flag os flags (codes "profile") || config.profile;
      allow_other = bool_flag os flags (codes "allow_other") || config.allow_other;
      child_process = bool_flag os flags (codes "child_process");
      instance_id = text_flag flags (codes "instance_id") config.instance_id;
      log_path = log_path;
      data_root_path = text_flag flags (codes "data_root") config.data_root_path;
    } in
    elim (flags (codes "data_root")) [
      | none ↦ named
      | some data_root ↦ record named { log_path = get_log_file_path os named }
    ]

-- What a `LogWriter` writes to; `none` is no writer.
unfoldable pub parent_log_writer : Os → Config → Option Text
parent_log_writer os config =
    let log_file_path = get_log_file_path os config in
    if same log_file_path (codes "-") || length log_file_path == 0
    then none
    else some (log_file_path ++ codes ".parent")

unfoldable pub input_missing_params : (os : Os) → Config → os.World → Option Config × os.World
input_missing_params os config w =
    let (proxy_user, w') : Text × os.World =
      if length config.proxy_user == 0 then os.scan_word w else (config.proxy_user, w) in
    let named = record config {
      proxy_user = proxy_user;
      client_user = unless_empty config.client_user proxy_user;
    } in
    if length config.password == 0
    then (let (password, w'') = os.read_password w' in
        elim password [
          | none ↦ (none, w'')
          | some password ↦ (some (record named { password = password }), w'')
        ])
    else (some named, w')

-- The first of two arguments is a URL.
abbrev url_of : List Text → Option Text
url_of (url ∷ mount_path ∷ []) = some url
url_of args = none

unfoldable pub apply_url : (os : Os) → List Text → Config → Task os.World Config
unfolding update_config_from_irods_url
apply_url os args config = elim (url_of args) [
  | none ↦ return config
  | some url ↦ some_or bad_url (update_config_from_irods_url os url config)
]

-- The mount point, the owner and the validation.
unfoldable pub settle : (os : Os) → Text → Config → Task os.World Config
settle os mount_path config = do
  mountpoint ← λ w. some_or bad_mount_point (os.abs mount_path w) w
  config ← some_or no_owner (correct_owner os (record config { mount_path = mountpoint }))
  λ w. elim (validate os config w) [ none ↦ (ok config, w) | some e ↦ (err (invalid e), w) ]

-- Questions are asked only while standard input has not been read.
unfoldable pub ask_missing : (os : Os) → Bool → Config → Task os.World Config
unfolding input_missing_params
ask_missing os stdin_closed config =
    if stdin_closed then return config else call no_password (input_missing_params os config)

-- What follows the flags: the arguments, the questions, the owner and the validation.
unfoldable pub complete : (os : Os) → List Text → Bool → Config → Task os.World Config
unfolding apply_url
complete os args stdin_closed config = do
  mount_path ← some_or no_mount_point (get_last? args)
  config ← apply_url os args config
  config ← ask_missing os stdin_closed config
  settle os mount_path config

-- Up to the directory of the log.
unfoldable pub prepare : (os : Os) → Yaml → Flags → Task os.World (Config × Bool)
prepare os yaml flags = do
  read ← read_config os yaml flags
  check no_log_dir (make_log_dir os (set_modes os flags read.0))
  return (set_modes os flags read.0, read.1)

-- `(nil, false, nil)`, `(nil, false, err)` and `(config, true, nil)`.
pub data Outcome : Type 0 where
  stopped : Outcome
  failed : CommandError → Outcome
  accepted : Config → Outcome

abbrev pub outcome_of : Result Config → Outcome
outcome_of (ok config) = accepted config
outcome_of (err e) = failed e

-- The outcome and the log writer.
unfoldable pub process_common_flags :
    (os : Os) → Yaml → Flags → List Text → os.World → (Outcome × Option Text) × os.World
process_common_flags os yaml flags args w =
    if bool_flag os flags (codes "help") || bool_flag os flags (codes "version")
    then ((stopped, none), w)
    else let (prepared, w') = prepare os yaml flags w in
      elim prepared [
        | err e ↦ ((failed e, none), w')
        | ok (config, stdin_closed) ↦
            let (completed, w'') =
              (do config ← merge_flags os flags config; complete os args stdin_closed config) w' in
            ((outcome_of completed, parent_log_writer os config), w'')
      ]
