-- ===== src/Cmd/Program/Laws.antt =====
-- What a child reports, and that its parent hears it.
use irodsfs.Base.{
  ◌≡◌, refl, inl, inr, ◌<◌, ◌∙◌, ap, sym, All, ◌++◌, ℕ, Bool, true, false, not, some, List, Text,
  length, [], ◌∷◌, arith, Option-cases, if◌then◌else◌,
}
use irodsfs.Os.{Os}
use irodsfs.Config.{Config, Yaml}
use irodsfs.Config.Validation.{validate}
use irodsfs.Mounts.{FileSystems}
use irodsfs.Cmd.Words.{trim_space}
use irodsfs.Cmd.Daemon.{
  Child, report_child_process, child_process_read_config, parent_process_send_config, receive,
}
use irodsfs.Cmd.Daemon.Laws.{NoReport, report_among}
use irodsfs.Cmd.Program.{exit_ok, exit_error, Run, run, child_main, start_background}

-- A process that writes one report, and ends as it says.
abbrev pub ReportsOnce : {os : Os} → Run os → Type 0
ReportsOnce r =
    (started : Bool) × (r.reports ≡ report_child_process started ∷ [])
    × (r.exit ≡ (if started then exit_ok else exit_error))

run-ReportsOnce :
    (os : Os) (fs : FileSystems os.World) (config : Config) (w : os.World)
    → ReportsOnce (run os fs config true w)
unfolding run
run-ReportsOnce os fs config w = elim (Option-cases (validate os config w)) [
  | inr (bad, v) ↦ (false, ground (arith, v), ground (arith, v))
  | inl v ↦ elim (Option-cases (fs.new_file_system config w).0) [
    | inl n ↦ (false, ground (arith, v, n), ground (arith, v, n))
    | inr (f, n) ↦
        let started = (fs.start f (fs.new_file_system config w).1).0 in
        (started, ground (arith, v, n), ground (arith, v, n))
  ]
]

-- On every path, a child writes exactly one report: of success if it ends with the exit code 0 and of
-- failure if it ends with 1.
pub child_main-ReportsOnce :
    (os : Os) (yaml : Yaml) (fs : FileSystems os.World) (w : os.World)
    → ReportsOnce (child_main os yaml fs w)
unfolding child_main
child_main-ReportsOnce os yaml fs w = elim (Option-cases (child_process_read_config os yaml w).0) [
  | inl r ↦ (false, ground (arith, r), ground (arith, r))
  | inr ((config, writer), r) ↦
      let v = (child_process_read_config os yaml w).1 in
      let (started, reports, exit) =
        run-ReportsOnce os fs (record config { child_process = true }) v in
      (started, ground (arith, r, reports), ground (arith, r, exit))
]

report_is :
    (started : Bool) → trim_space (report_child_process started) ≡ report_child_process started
unfolding trim_space
report_is true = refl
report_is false = refl

twice_not : (b : Bool) → not (not b) ≡ b
twice_not true = refl
twice_not false = refl

-- A parent that has sent the configuration to its child comes to an end, with the exit code of the
-- child: it is enough that what the child's main function reports stands somewhere in the output,
-- after lines that are no reports and fewer than the rounds of the loop.
pub start_background-exit :
    (rounds : ℕ) (os : Os) (yaml : Yaml) (fs : FileSystems os.World) (child : Child)
    (config : Config) (text : Text) (noise after : List Text) (w : os.World)
    → yaml.marshal config ≡ some text
    → child.takes text ≡ true
    → child.output text ≡ noise ++ ((child_main os yaml fs w).reports ++ after)
    → All NoReport noise
    → length noise < rounds
    → start_background rounds yaml (some child) config ≡ some (child_main os yaml fs w).exit
unfolding start_background parent_process_send_config
start_background-exit rounds os yaml fs child config text noise after w m t o n h =
    let (started, reports, exit) = child_main-ReportsOnce os yaml fs w in
    let output : child.output text ≡ noise ++ report_child_process started ∷ after =
      rw (o, reports) refl in
    let heard : receive rounds (child.output text) (child.output_fails text) ≡ some (not started) =
      rw output (
        report_among noise after (report_child_process started) (child.output_fails text)
          (not started) rounds n
          (report_is started ∙ ap report_child_process (sym (twice_not started))) h) in
    ground (arith, m, t, heard, exit)
