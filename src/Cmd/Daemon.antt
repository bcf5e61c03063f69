-- ===== src/Cmd/Daemon.antt =====
-- cmd/commons/daemon.go: the parent sends the configuration to its child and waits for its report. A
-- pipe is the text that is written to it; what a scanner reads of the child's output is its lines,
-- and whether they end by an error rather than by the end of the file.
pub mod Laws
pub mod Handover
use irodsfs.Base.{
  ℕ, zero, suc, Bool, true, false, not, ◌||◌, Option, none, some, List, Text, codes, same, length,
  ◌==◌, [], ◌∷◌, ◌++◌, if◌then◌else◌,
}
use irodsfs.Os.{Os}
use irodsfs.Config.{Config, Yaml, new_config_from_yaml, get_log_file_path, make_log_dir}
use irodsfs.Config.Validation.{validate}
use irodsfs.Cmd.Words.{trim_space}

-- `InterProcessCommunicationFinishSuccess` and `InterProcessCommunicationFinishError`
abbrev pub finish_success : Text
finish_success = codes "<<COMMUNICATION_CLOSE_SUCCESS>>"

abbrev pub finish_error : Text
finish_error = codes "<<COMMUNICATION_CLOSE_ERROR>>"

-- What the child has to say on its start.
abbrev pub report_child_process : Bool → Text
report_child_process started = if started then finish_success else finish_error

-- The loop over the child's output, with the rounds that it may take. The answer is whether the child
-- failed; a scanner at its end answers the same in every round.
unfoldable pub receive : ℕ → List Text → Bool → Option Bool
receive zero lines fails = none
receive (suc rounds) [] fails =
    let rest = receive rounds [] fails in if fails then some true else rest
receive (suc rounds) (line ∷ lines) fails =
    let rest = receive rounds lines fails in
    let message = trim_space line in
    if same message finish_success
    then some false
    else if same message finish_error
    then some true
    else rest

-- A child is a pipe that may fail to take a text, and what it writes once it has read it.
pub record Child : Type 0 where
  pub takes : Text → Bool
  pub output : Text → List Text
  pub output_fails : Text → Bool

-- Whether there was no error; `none` if the rounds are used up.
unfoldable pub parent_process_send_config : ℕ → Yaml → Child → Config → Option Bool
unfolding receive
parent_process_send_config rounds yaml child config = elim (yaml.marshal config) [
  | none ↦ some false
  | some config_bytes ↦
      if child.takes config_bytes
      then elim (receive rounds (child.output config_bytes) (child.output_fails config_bytes)) [
        | none ↦ none
        | some failed ↦ some (not failed)
      ]
      else some false
]

-- What the log is written to; `none` is a `NilWriter`.
unfoldable pub child_log_writer : Os → Config → Option Text
child_log_writer os config =
    let log_file_path = get_log_file_path os config in
    if same log_file_path (codes "-") || length log_file_path == 0
    then none
    else some (log_file_path ++ codes ".child")

-- The configuration and the log writer, or an error.
unfoldable pub child_process_read_config :
    (os : Os) → Yaml → os.World → Option (Config × Option Text) × os.World
child_process_read_config os yaml w =
    let (config_bytes, v) = os.read_stdin w in
    elim config_bytes [
      | none ↦ (none, v)
      | some config_bytes ↦
          let (read, v') = new_config_from_yaml os yaml config_bytes v in
          elim read [
            | none ↦ (none, v')
            | some config ↦ elim (validate os config v') [
              | some bad ↦ (none, v')
              | none ↦
                  let (made, v'') = make_log_dir os config v' in
                  if made then (some (config, child_log_writer os config), v'') else (none, v'')
            ]
          ]
    ]
