-- ===== src/Cmd/Daemon/Handover.antt =====
-- The way of a configuration from the parent to its child.
use irodsfs.Base.{◌≡◌, ◌≢◌, refl, List, ◌∙◌, true, false, Option, some, Text, arith, []}
use irodsfs.Base.Ints.{pos}
use irodsfs.Os.{Os}
use irodsfs.Users.Laws.{AreNamed, correct_system_user-idempotent}
use irodsfs.Config.{
  Config, Yaml, new_default_config, new_config_from_yaml, correct_owner, make_log_dir,
}
use irodsfs.Config.Laws.{correct_owner-IsCorrected, IsCorrected-correct_owner}
use irodsfs.Config.Validation.{validate, validate_paths}
use irodsfs.Config.Validation.Laws.{validate_iff}
use irodsfs.Cmd.Args.{accepted, process_common_flags}
use irodsfs.Cmd.Args.FlagValues.{Flags}
use irodsfs.Cmd.Args.Steps.{accepted-IsAccepted}
use irodsfs.Cmd.Daemon.{child_process_read_config, child_log_writer}

-- A setting that is left out of a text where it is empty is empty before the text is read.
abbrev pub AgreeOnEmpty {ℓ} : {A : Type ℓ} → A → A → A → Type ℓ
AgreeOnEmpty zero x y = x ≡ zero → y ≡ zero

-- The settings marked `omitempty`, where `c` is written and `d` is read over.
pub record AgreeOnOmitted (c d : Config) : Type 0 where
  pub proxy_user : AgreeOnEmpty [] c.proxy_user d.proxy_user
  pub password : AgreeOnEmpty [] c.password d.password
  pub resource : AgreeOnEmpty [] c.resource d.resource
  pub mount_path : AgreeOnEmpty [] c.mount_path d.mount_path
  pub data_root_path : AgreeOnEmpty [] c.data_root_path d.data_root_path
  pub log_path : AgreeOnEmpty [] c.log_path d.log_path
  pub pool_endpoint : AgreeOnEmpty [] c.pool_endpoint d.pool_endpoint
  pub monitor_url : AgreeOnEmpty [] c.monitor_url d.monitor_url
  pub profile : AgreeOnEmpty false c.profile d.profile
  pub profile_service_port : AgreeOnEmpty (pos 0) c.profile_service_port d.profile_service_port
  pub foreground : AgreeOnEmpty false c.foreground d.foreground
  pub log_level : AgreeOnEmpty [] c.log_level d.log_level
  pub debug : AgreeOnEmpty false c.debug d.debug
  pub allow_other : AgreeOnEmpty false c.allow_other d.allow_other
  pub child_process : AgreeOnEmpty false c.child_process d.child_process
  pub instance_id : AgreeOnEmpty [] c.instance_id d.instance_id
  pub fuse_options : AgreeOnEmpty [] c.fuse_options d.fuse_options

-- yaml.v2 reads what it has written, over a configuration that is empty where a setting was left out.
abbrev pub CanReadBack : Yaml → Config → Type 0
CanReadBack yaml c =
    (d : Config) (text : Text)
    → AgreeOnOmitted c d
    → yaml.marshal c ≡ some text
    → yaml.unmarshal text d ≡ some c

default-AgreeOnOmitted :
    (os : Os) (c : Config) (w : os.World)
    → c.data_root_path ≢ []
    → c.instance_id ≢ []
    → c.profile_service_port ≢ pos 0
    → AgreeOnOmitted c (new_default_config os w).0
unfolding new_default_config
default-AgreeOnOmitted os c w r i p = record {
  proxy_user = λ e. refl;
  password = λ e. refl;
  resource = λ e. refl;
  mount_path = λ e. refl;
  data_root_path = λ e. absurd (r e);
  log_path = λ e. refl;
  pool_endpoint = λ e. refl;
  monitor_url = λ e. refl;
  profile = λ e. refl;
  profile_service_port = λ e. absurd (p e);
  foreground = λ e. refl;
  log_level = λ e. refl;
  debug = λ e. refl;
  allow_other = λ e. refl;
  child_process = λ e. refl;
  instance_id = λ e. absurd (i e);
  fuse_options = λ e. refl;
}

-- An owner that has just been corrected is corrected to itself.
corrected_again :
    (os : Os) (before c : Config)
    → AreNamed os
    → correct_owner os before ≡ some c
    → correct_owner os c ≡ some c
corrected_again os before c n e =
    let (owner, kept) = correct_owner-IsCorrected os before c e in
    IsCorrected-correct_owner os c c (
      correct_system_user-idempotent os before.system_user before.uid before.gid c.system_user c.uid
          c.gid n owner,
      refl,
    )

read_back :
    (os : Os) (yaml : Yaml) (before c : Config) (text : Text) (w : os.World)
    → AreNamed os
    → CanReadBack yaml c
    → correct_owner os before ≡ some c
    → c.data_root_path ≢ []
    → c.instance_id ≢ []
    → c.profile_service_port ≢ pos 0
    → yaml.marshal c ≡ some text
    → new_config_from_yaml os yaml text w ≡ (some c, (new_default_config os w).1)
unfolding new_config_from_yaml
read_back os yaml before c text w n y e r i p m =
    let back = y (new_default_config os w).0 text (default-AgreeOnOmitted os c w r i p) m in
    let owner = corrected_again os before c n e in ground (arith, back, owner)

-- Of the operating system, `Validate` only looks at the mount point.
pub validate-stat :
    (os : Os) (c : Config) (w v : os.World)
    → os.stat c.mount_path v ≡ os.stat c.mount_path w
    → validate os c v ≡ validate os c w
unfolding validate validate_paths
validate-stat os c w v e = ground (arith, e)

-- A configuration that the parent has accepted arrives at the child as it is. The parent writes it as a
-- text, which the child reads from its standard input, over the defaults, corrects and validates; it
-- has the same settings then, if yaml.v2 reads back what it has written, the users of the system can
-- be looked up by their names, the instance has an ID, the port of the profiler is not 0, which would
-- be left out of the text, the mount point has stayed as it is, and the log's directory can be made.
pub accepted-handover :
    (os : Os) (yaml : Yaml) (flags : Flags) (args : List Text) (c : Config) (writer : Option Text)
    (text : Text) (start parent child read logged : os.World)
    → AreNamed os
    → CanReadBack yaml c
    → c.instance_id ≢ []
    → c.profile_service_port ≢ pos 0
    → process_common_flags os yaml flags args start ≡ ((accepted c, writer), parent)
    → yaml.marshal c ≡ some text
    → os.read_stdin child ≡ (some text, read)
    → os.stat c.mount_path (new_default_config os read).1 ≡ os.stat c.mount_path parent
    → make_log_dir os c (new_default_config os read).1 ≡ (true, logged)
    → child_process_read_config os yaml child ≡ (some (c, child_log_writer os c), logged)
unfolding child_process_read_config
accepted-handover os yaml flags args c writer text start parent child read logged n y i p e m r s
      l =
    let a = accepted-IsAccepted os yaml flags args c writer start parent e in
    let settled = a.completed.settled in
    let before = record a.completed.asked { mount_path = c.mount_path } in
    let owner = IsCorrected-correct_owner os before c settled.owner in
    let (account, paths, connection) = (validate_iff os c parent).0 settled.is_valid in
    let back = read_back os yaml before c text read n y owner paths.4 i p m in
    let valid = validate-stat os c parent (new_default_config os read).1 s ∙ settled.is_valid in
    ground (arith, r, back, valid, l)
