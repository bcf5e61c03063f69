-- ===== src/Cmd/Program.antt =====
-- cmd/main.go: the parent's and the child's main function. The file system is an interface, which
-- irodsfs/fs.go implements; the starting of a process is a parameter. The profiler and the signal
-- handler, which calls `Stop`, run beside `run` and are left out.
pub mod Laws
pub mod Background
use irodsfs.Base.{
  ℕ, Bool, true, false, not, ◌||◌, Option, none, some, List, Text, codes, same, length, ltb, drop,
  ◌==◌, [], ◌∷◌, if◌then◌else◌,
}
use irodsfs.Os.{Os}
use irodsfs.Config.{Config, Yaml}
use irodsfs.Config.Validation.{validate}
use irodsfs.Fuse.{
  CheckFuseStatus, fuse_found, fuse_not_found, fuse_cannot_run, fuse_unknown, check_fuse,
}
use irodsfs.Mounts.{FileSystems}
use irodsfs.Cmd.Args.{Outcome, stopped, failed, accepted, process_common_flags}
use irodsfs.Cmd.Args.FlagValues.{Flags}
use irodsfs.Cmd.Daemon.{
  Child, report_child_process, parent_process_send_config, child_process_read_config,
}

pub data Exit : Type 0 where
  exit_ok exit_error : Exit

-- What a process has written for its parent, how it ends, and the world after it.
pub record Run (os : Os) : Type 0 where
  pub reports : List Text
  pub exit : Exit
  pub world : os.World

abbrev pub reports_of : Bool → Bool → List Text
reports_of is_child started = if is_child then report_child_process started ∷ [] else []

-- `fs.Stop(); fs.Release()`
abbrev pub close : (os : Os) (fs : FileSystems os.World) → fs.Fs → os.World → os.World
close os fs f w = let (f, w) = fs.stop f w in (fs.release f w).1

-- An error ends in `os.Exit(1)` of the main functions, and success in that of `run` itself.
unfoldable pub run : (os : Os) → FileSystems os.World → Config → Bool → os.World → Run os
run os fs config is_child w = elim (validate os config w) [
  | some bad ↦ record { reports = reports_of is_child false; exit = exit_error; world = w }
  | none ↦
      let (made, v) = fs.new_file_system config w in
      elim made [
        | none ↦ record { reports = reports_of is_child false; exit = exit_error; world = v }
        | some f ↦
            let (started, f, v') = fs.start f v in
            record {
              reports = reports_of is_child started;
              exit = if started then exit_ok else exit_error;
              world = if started then close os fs f (fs.wait f v') else (fs.release f v').1;
            }
      ]
]

unfoldable pub child_main : (os : Os) → Yaml → FileSystems os.World → os.World → Run os
child_main os yaml fs w =
    let (read, v) = child_process_read_config os yaml w in
    elim read [
      | none ↦ record { reports = reports_of true false; exit = exit_error; world = v }
      | some (config, log_writer) ↦ run os fs (record config { child_process = true }) true v
    ]

-- `arg == "-child_process" || arg[1:] == "-child_process"`, for arguments that are long enough.
abbrev pub is_child_argument : Text → Bool
is_child_argument arg =
    if ltb (length arg) (length (codes "-child_process"))
    then false
    else same arg (codes "-child_process") || same (drop 1 arg) (codes "-child_process")

unfoldable pub is_child_process : List Text → Bool
is_child_process [] = false
is_child_process (arg ∷ args) = if is_child_argument arg then true else is_child_process args

-- How the parent ends; `none` if it waits for its child when the rounds are used up.
unfoldable pub start_background : ℕ → Yaml → Option Child → Config → Option Exit
start_background rounds yaml child config = elim child [
  | none ↦ some exit_error
  | some child ↦ elim (parent_process_send_config rounds yaml child config) [
    | none ↦ none
    | some sent ↦ some (if sent then exit_ok else exit_error)
  ]
]

unfoldable pub can_start : CheckFuseStatus → Bool
can_start fuse_found = true
can_start fuse_unknown = true
can_start fuse_not_found = false
can_start fuse_cannot_run = false

unfoldable pub parent_main :
    ℕ
    → (os : Os) → Yaml
    → FileSystems os.World
    → (os.World → Option Child × os.World)
    → Flags
    → List Text
    → os.World
    → Option Exit
unfolding start_background can_start
parent_main rounds os yaml fs run_child_process flags args w =
    let ((outcome, log_writer), v) = process_common_flags os yaml flags args w in
    elim outcome [
      | failed e ↦ some exit_error
      | stopped ↦ some exit_ok
      | accepted config ↦
          if can_start (check_fuse os v)
          then (if config.foreground
              then some (run os fs config false v).exit
              else start_background rounds yaml (run_child_process v).0 config)
          else some exit_error
    ]

-- `processCommand`, by the arguments of the process.
unfoldable pub process_command :
    ℕ
    → (os : Os) → Yaml
    → FileSystems os.World
    → (os.World → Option Child × os.World)
    → List Text
    → Flags
    → List Text
    → os.World
    → Option Exit
unfolding child_main is_child_process
process_command rounds os yaml fs run_child_process os_args flags args w =
    if is_child_process os_args
    then some (child_main os yaml fs w).exit
    else parent_main rounds os yaml fs run_child_process flags args w
