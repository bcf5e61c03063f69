-- ===== src/Cmd/Program/Background.antt =====
-- The whole start in the background: from the command line of the parent to the report of its child.
use irodsfs.Base.{
  ◌≡◌, ◌≢◌, refl, ap, ◌∙◌, ◌<◌, ◌++◌, ℕ, true, Option, none, some, List, Text, All, length, [], ◌∷◌,
  false, arith,
}
use irodsfs.Base.Ints.{pos}
use irodsfs.Os.{Os}
use irodsfs.Users.Laws.{AreNamed}
use irodsfs.Config.{Config, Yaml, new_default_config, make_log_dir}
use irodsfs.Config.Validation.{validate}
use irodsfs.Cmd.Args.{accepted, process_common_flags}
use irodsfs.Cmd.Args.FlagValues.{Flags}
use irodsfs.Cmd.Args.Steps.{accepted-IsAccepted}
use irodsfs.Fuse.{check_fuse}
use irodsfs.Cmd.Daemon.{Child, report_child_process, child_log_writer, child_process_read_config}
use irodsfs.Cmd.Daemon.Laws.{NoReport}
use irodsfs.Cmd.Daemon.Handover.{CanReadBack, validate-stat, accepted-handover}
use irodsfs.Mounts.{FileSystems}
use irodsfs.Cmd.Program.{exit_ok, can_start, run, child_main, start_background, parent_main}
use irodsfs.Cmd.Program.Laws.{start_background-exit}

validate-child :
    (os : Os) (c : Config) (w : os.World)
    → validate os (record c { child_process = true }) w ≡ validate os c w
unfolding validate
validate-child os c w = refl

-- `fs.Wait(); fs.Stop(); fs.Release()`, after the file system has been made and started.
served_run :
    (os : Os) (fs : FileSystems os.World) (c : Config) (f g h : fs.Fs) (w v u z : os.World)
    → validate os (record c { child_process = true }) w ≡ none
    → fs.new_file_system (record c { child_process = true }) w ≡ (some f, v)
    → fs.start f v ≡ (true, g, u)
    → fs.stop g (fs.wait g u) ≡ (h, z)
    → run os fs (record c { child_process = true }) true w ≡ record {
      reports = report_child_process true ∷ [];
      exit = exit_ok;
      world = (fs.release h z).1;
    }
unfolding run
served_run os fs c f g h w v u z a m s t = ground (arith, a, m, s, t)

parent_main-background :
    (rounds : ℕ) (os : Os) (yaml : Yaml) (fs : FileSystems os.World)
    (run_child_process : os.World → Option Child × os.World) (flags : Flags) (args : List Text)
    (c : Config) (writer : Option Text) (start parent : os.World)
    → process_common_flags os yaml flags args start ≡ ((accepted c, writer), parent)
    → can_start (check_fuse os parent) ≡ true
    → c.foreground ≡ false
    → parent_main rounds os yaml fs run_child_process flags args start
      ≡ start_background rounds yaml (run_child_process parent).0 c
unfolding parent_main
parent_main-background rounds os yaml fs run_child_process flags args c writer start parent e f b =
    ground (arith, e, f, b)

child_main-run :
    (os : Os) (yaml : Yaml) (fs : FileSystems os.World) (c : Config) (writer : Option Text)
    (w v : os.World)
    → child_process_read_config os yaml w ≡ (some (c, writer), v)
    → child_main os yaml fs w ≡ run os fs (record c { child_process = true }) true v
unfolding child_main
child_main-run os yaml fs c writer w v e = ground (arith, e)

-- A command line that the parent accepts, and that does not ask for the foreground, is mounted in the
-- background. The child reads the configuration that the parent has accepted, makes the file system with
-- it and starts it, reports this, waits until it is unmounted, and then stops and releases it: what it
-- has done to the world is these calls, each in the world that the call before it has left. The parent
-- hears the report and ends with the exit code 0. The conditions are that FUSE does not stop the parent
-- and a child process can be started; those under which a configuration arrives at the child as it is;
-- that the mount point has stayed as it is until the file system is made; that it can be made and
-- started; and that the pipes carry the text and the report, after lines that are no reports and fewer
-- than the rounds of the parent's loop.
pub accepted-background :
    (rounds : ℕ) (os : Os) (yaml : Yaml) (flags : Flags) (args : List Text) (c : Config)
    (writer : Option Text) (text : Text)
    (start parent child read logged made served stopped : os.World) (fs : FileSystems os.World)
    (f g h : fs.Fs) (run_child_process : os.World → Option Child × os.World) (pipe : Child)
    (noise after : List Text)
    → AreNamed os
    → CanReadBack yaml c
    → c.instance_id ≢ []
    → c.profile_service_port ≢ pos 0
    → process_common_flags os yaml flags args start ≡ ((accepted c, writer), parent)
    → can_start (check_fuse os parent) ≡ true
    → c.foreground ≡ false
    → (run_child_process parent).0 ≡ some pipe
    → yaml.marshal c ≡ some text
    → os.read_stdin child ≡ (some text, read)
    → os.stat c.mount_path (new_default_config os read).1 ≡ os.stat c.mount_path parent
    → make_log_dir os c (new_default_config os read).1 ≡ (true, logged)
    → os.stat c.mount_path logged ≡ os.stat c.mount_path parent
    → fs.new_file_system (record c { child_process = true }) logged ≡ (some f, made)
    → fs.start f made ≡ (true, g, served)
    → fs.stop g (fs.wait g served) ≡ (h, stopped)
    → pipe.takes text ≡ true
    → pipe.output text ≡ noise ++ ((child_main os yaml fs child).reports ++ after)
    → All NoReport noise
    → length noise < rounds
    → (parent_main rounds os yaml fs run_child_process flags args start ≡ some exit_ok)
      × (child_main os yaml fs child ≡ record {
        reports = report_child_process true ∷ [];
        exit = exit_ok;
        world = (fs.release h stopped).1;
      })
accepted-background rounds os yaml flags args c writer text start parent child read logged made
      served stopped fs f g h run_child_process pipe noise after n y i p e can b started m r s l s'
      k k' z t o q r' =
    let a = accepted-IsAccepted os yaml flags args c writer start parent e in
    let handed =
      accepted-handover os yaml flags args c writer text start parent child read logged n y i p e m
        r s l in
    let valid =
      validate-child os c logged
      ∙ validate-stat os c parent logged s'
      ∙ a.completed.settled.is_valid in
    let ran =
      child_main-run os yaml fs c (child_log_writer os c) child logged handed
      ∙ served_run os fs c f g h logged made served stopped valid k k' z in
    (
      parent_main-background rounds os yaml fs run_child_process flags args c writer start parent e
            can b
          ∙ ap (λ d. start_background rounds yaml d c) started
          ∙ start_background-exit rounds os yaml fs pipe c text noise after child m t o q r'
          ∙ ap some (ap (λ d. d.exit) ran),
      ran,
    )
