-- ===== src/Cmd/Args/Laws.antt =====
-- What a configuration has that comes out of `ProcessCommonFlags`, and which settings of a
-- configuration file come through.
use irodsfs.Base.{
  ◌≡◌, ◌≢◌, refl, ap, ◌∙◌, subst, inl, inr, ℕ, ◌<◌, ◌^◌, ◌*◌, Bool, true, false, Option, some, List,
  Text, codes, same, length, get_last?, ◌==◌, [], ◌∷◌, arith, Option-cases,
}
use irodsfs.Base.Dict.{lookup}
use irodsfs.Base.Ints.{ℤ, pos}
use irodsfs.Os.{Os, User, PathMapping}
use irodsfs.Users.{get_current_system_user, correct_system_user, ids_of}
use irodsfs.Users.Laws.{correct_system_user-named}
use irodsfs.Config.{
  correct_owner, Config, Yaml, minutes, new_default_config, read_ahead_max_default,
  connection_max_default,
}
use irodsfs.Config.Laws.{IsCorrected-correct_owner}
use irodsfs.Config.Validation.Laws.{IsValidAccount, HasValidPaths, IsValidConnection, validate_iff}
use irodsfs.Config.Icommands.{mapping_of}
use irodsfs.Cmd.Urls.{IrodsAccessUrl, parse_irods_url, update_config, update_config_from_irods_url}
use irodsfs.Cmd.Urls.Laws.{IsReadOf, IsReadOf-nonempty, parse_irods_url_iff}
use irodsfs.Cmd.Args.{apply_url, prepare, read_config, set_modes, accepted, process_common_flags}
use irodsfs.Cmd.Args.FlagValues.{Flags, ok, set_common_flags}
use irodsfs.Cmd.Args.Overrides.{Tuning, overridden}
use irodsfs.Cmd.Args.Merging.{IsTuning, merge_flags_lem}
use irodsfs.Cmd.Args.Steps.{
  ask_missing-keeps, IsCompleted-Retuned, accepted-IsAccepted, Retuned, owner_of_completed,
}

-- A configuration that the command line is turned into is valid: it has an account, mappings, an owner
-- whose IDs are not negative, a mount point that is a directory that can be written to, and a
-- connection as `Validate` asks for them. Its owner has been corrected, and its mount point is the last
-- argument, made absolute.
pub process_common_flags-accepted :
    (os : Os) (yaml : Yaml) (flags : Flags) (args : List Text) (c : Config) (writer : Option Text)
    (w w' : os.World)
    → process_common_flags os yaml flags args w ≡ ((accepted c, writer), w')
    → IsValidAccount c
      × HasValidPaths os c w'
      × IsValidConnection os c
      × ((before : Config) × (correct_owner os before ≡ some c))
      × ((last : Text) × (get_last? args ≡ some last) × (os.abs last w' ≡ some c.mount_path))
process_common_flags-accepted os yaml flags args c writer w w' e =
    let a = accepted-IsAccepted os yaml flags args c writer w w' e in
    let s = a.completed.settled in
    let (account, paths, connection) = (validate_iff os c w').0 s.is_valid in
    let before = record a.completed.asked { mount_path = c.mount_path } in
    (
      account,
      paths,
      connection,
      (before, IsCorrected-correct_owner os before c s.owner),
      (a.completed.last, a.completed.last_arg, s.mount_path),
    )

-- A flag that is not given has its default.
abbrev pub IsUnset : Os → Flags → Text → Type 0
IsUnset os flags name = flags name ≡ lookup name (set_common_flags os)

-- The settings that a configuration file can give and flags with a default too.
pub record HasDefaults (c : Config) : Type 0 where
  pub read_ahead_max : c.read_ahead_max ≡ read_ahead_max_default
  pub connection_max : c.connection_max ≡ connection_max_default
  pub operation_timeout : c.operation_timeout ≡ minutes
  pub connection_idle_timeout : c.connection_idle_timeout ≡ minutes
  pub metadata_cache_timeout : c.metadata_cache_timeout ≡ minutes
  pub metadata_cache_cleanup_time : c.metadata_cache_cleanup_time ≡ minutes
  pub no_permission_check : c.no_permission_check ≡ false
  pub no_set_xattr : c.no_set_xattr ≡ false
  pub start_new_transaction : c.start_new_transaction ≡ true

-- None of the flags for them is given.
pub record AreUnset (os : Os) (flags : Flags) : Type 0 where
  pub readahead : IsUnset os flags (codes "readahead")
  pub connection_max : IsUnset os flags (codes "connection_max")
  pub operation_timeout : IsUnset os flags (codes "operation_timeout")
  pub connection_idle_timeout : IsUnset os flags (codes "connection_idle_timeout")
  pub metadata_cache_timeout : IsUnset os flags (codes "metadata_cache_timeout")
  pub no_permission_check : IsUnset os flags (codes "no_permission_check")
  pub no_set_xattr : IsUnset os flags (codes "no_set_xattr")
  pub no_transaction : IsUnset os flags (codes "no_transaction")

-- The standard library reads what it prints.
pub record CanRead (os : Os) : Type 0 where
  pub ints : (n : ℕ) → n < 2 ^ 31 → os.parse_int32 (os.format_int (pos n)) ≡ some (pos n)
  pub durations : (n : ℤ) → os.parse_duration (os.format_duration n) ≡ some n
  pub bools : os.parse_bool (codes "false") ≡ false

length-ne-zero : (s : Text) → s ≢ [] → (length s == 0) ≡ false
length-ne-zero [] n = absurd (n refl)
length-ne-zero (b ∷ s) n = ground arith

overridden-system_user :
    (os : Os) (flags : Flags) (port : ℤ) (path_mappings : List PathMapping) (t : Tuning)
    (before : Config)
    → IsUnset os flags (codes "sys_user")
    → (overridden os flags port path_mappings t before).system_user ≡ before.system_user
unfolding overridden set_common_flags lookup same
overridden-system_user os flags port path_mappings t before u = ground (arith, u)

overridden-HasDefaults :
    (os : Os) (flags : Flags) (port : ℤ) (path_mappings : List PathMapping) (t : Tuning)
    (before c : Config)
    → CanRead os
    → AreUnset os flags
    → IsTuning os flags before t
    → Retuned (overridden os flags port path_mappings t before) c
    → HasDefaults c
unfolding overridden set_common_flags lookup same
overridden-HasDefaults os flags port path_mappings t before c r u g e = record {
  read_ahead_max =
      ap (λ (k : Config). k.read_ahead_max) e
      ∙ ground (arith, g.read_ahead_max, u.readahead, r.ints (1024 * 128));
  connection_max =
      ap (λ (k : Config). k.connection_max) e
      ∙ ground (arith, g.connection_max, u.connection_max, r.ints 10);
  operation_timeout =
      ap (λ (k : Config). k.operation_timeout) e
      ∙ ground (arith, g.operation_timeout, u.operation_timeout, r.durations minutes);
  connection_idle_timeout =
      ap (λ (k : Config). k.connection_idle_timeout) e
      ∙ ground (arith, g.connection_idle_timeout, u.connection_idle_timeout, r.durations minutes);
  metadata_cache_timeout =
      ap (λ (k : Config). k.metadata_cache_timeout) e
      ∙ ground (arith, g.metadata_cache_timeout, u.metadata_cache_timeout, r.durations minutes);
  metadata_cache_cleanup_time =
      ap (λ (k : Config). k.metadata_cache_cleanup_time) e
      ∙ ground
          (arith, g.metadata_cache_cleanup_time, u.metadata_cache_timeout, r.durations minutes);
  no_permission_check =
      ap (λ (k : Config). k.no_permission_check) e ∙ ground (arith, u.no_permission_check, r.bools);
  no_set_xattr = ap (λ (k : Config). k.no_set_xattr) e ∙ ground (arith, u.no_set_xattr, r.bools);
  start_new_transaction =
      ap (λ (k : Config). k.start_new_transaction) e ∙ ground (arith, u.no_transaction, r.bools);
}

-- The bug of the flags with defaults: a flag that is not given has its default, which counts as if it
-- had been given. Whatever the configuration file says on reading ahead, connections, timeouts,
-- permission checks, attributes and transactions, a configuration that comes out has the defaults of
-- the flags for them, if the standard library reads the numbers, the durations and the `false` that it
-- prints. The time of the cache's clean-up has its default even if the flag for it is given, as long as
-- the one for the cache's timeout is not.
pub unset_flags-HasDefaults :
    (os : Os) (yaml : Yaml) (flags : Flags) (args : List Text) (c : Config) (writer : Option Text)
    (w w' : os.World)
    → CanRead os
    → AreUnset os flags
    → process_common_flags os yaml flags args w ≡ ((accepted c, writer), w')
    → HasDefaults c
unset_flags-HasDefaults os yaml flags args c writer w w' r u e =
    let a = accepted-IsAccepted os yaml flags args c writer w w' e in
    let (port, path_mappings, t, g, m) =
      merge_flags_lem os flags a.prepared a.merged a.prepared_world a.merged_world a.overridden in
    let kept =
      IsCompleted-Retuned os args a.stdin_closed a.merged c a.merged_world w' a.completed in
    overridden-HasDefaults os flags port path_mappings t a.prepared c r u g
      (subst (λ (k : Config). Retuned k c) m kept)

prepare-default :
    (os : Os) (yaml : Yaml) (flags : Flags) (c : Config) (stdin_closed : Bool) (w w' : os.World)
    → IsUnset os flags (codes "config")
    → prepare os yaml flags w ≡ (ok (c, stdin_closed), w')
    → c.system_user ≡ (get_current_system_user os).0
unfolding prepare read_config new_default_config set_modes set_common_flags lookup same
prepare-default os yaml flags c stdin_closed w w' u e = ground (arith, u, e)

-- The bug of the flags for the owner's IDs: without a configuration file the system user is the
-- current user, and the IDs are those of the user with that name. So if the flag for the system
-- user is not given, what the flags for the user's and the group's ID say counts for nothing.
pub uid_flags_unused :
    (os : Os) (yaml : Yaml) (flags : Flags) (args : List Text) (c : Config) (writer : Option Text)
    (w w' : os.World)
    → IsUnset os flags (codes "config")
    → IsUnset os flags (codes "sys_user")
    → (get_current_system_user os).0 ≢ []
    → process_common_flags os yaml flags args w ≡ ((accepted c, writer), w')
    → (c.system_user ≡ (get_current_system_user os).0)
      × ((u : User) × (name : Text) × (os.lookup (get_current_system_user os).0 ≡ some u)
          × (ids_of u ≡ some (name, c.uid, c.gid)))
uid_flags_unused os yaml flags args c writer w w' u v n e =
    let a = accepted-IsAccepted os yaml flags args c writer w w' e in
    let (port, path_mappings, t, g, m) =
      merge_flags_lem os flags a.prepared a.merged a.prepared_world a.merged_world a.overridden in
    let user : a.merged.system_user ≡ (get_current_system_user os).0 =
      ap (λ (k : Config). k.system_user) m
      ∙ overridden-system_user os flags port path_mappings t a.prepared v
      ∙ prepare-default os yaml flags a.prepared a.stdin_closed w a.prepared_world u a.ready in
    let owner =
      owner_of_completed os args a.stdin_closed a.merged c a.merged_world w' a.completed in
    correct_system_user-named os (get_current_system_user os).0 a.merged.uid a.merged.gid
      c.system_user c.uid c.gid n
      (subst
        (λ (t : Text).
          correct_system_user os t a.merged.uid a.merged.gid ≡ some (c.system_user, c.uid, c.gid))
        user owner)

update_config-at :
    (os : Os) (access : IrodsAccessUrl) (config : Config)
    → access.zone ≢ []
    → access.path ≢ []
    → ((update_config os access config).zone ≡ access.zone)
      × ((update_config os access config).path_mappings ≡ mapping_of os access.path ∷ [])
unfolding update_config
update_config-at os access config z p =
    ground (arith, length-ne-zero access.zone, length-ne-zero access.path)

apply_url-at :
    (os : Os) (url mount : Text) (config c : Config) (w w' : os.World)
    → apply_url os (url ∷ mount ∷ []) config w ≡ (ok c, w')
    → (access : IrodsAccessUrl) × (parse_irods_url os url ≡ some access)
      × (c ≡ update_config os access config)
unfolding apply_url update_config_from_irods_url
apply_url-at os url mount config c w w' e = elim (Option-cases (parse_irods_url os url)) [
  | inl p ↦ absurd (ground (arith, e, p))
  | inr (access, p) ↦ (access, p, ground (arith, e, p))
]

-- A URL before the mount point settles what is mounted: a configuration that comes out has the zone of
-- the URL, and one mapping, of the URL's path at the root, whatever the configuration file and the
-- flags say.
pub url_settles_mappings :
    (os : Os) (yaml : Yaml) (flags : Flags) (url mount : Text) (c : Config) (writer : Option Text)
    (w w' : os.World)
    → process_common_flags os yaml flags (url ∷ mount ∷ []) w ≡ ((accepted c, writer), w')
    → (access : IrodsAccessUrl) × IsReadOf os url access
      × (c.zone ≡ access.zone)
      × (c.path_mappings ≡ mapping_of os access.path ∷ [])
url_settles_mappings os yaml flags url mount c writer w w' e =
    let a = accepted-IsAccepted os yaml flags (url ∷ mount ∷ []) c writer w w' e in
    let k = a.completed in
    let (access, p, u) =
      apply_url-at os url mount a.merged k.with_url a.merged_world k.url_world k.applied in
    let read = (parse_irods_url_iff os url access).0 p in
    let asked =
      ask_missing-keeps os a.stdin_closed k.with_url k.asked k.url_world k.asked_world k.answered in
    let (has_zone, has_path) = IsReadOf-nonempty os url access read in
    let (zone, mappings) = update_config-at os access a.merged has_zone has_path in
    (
      access,
      read,
      ap (λ (d : Config). d.zone) k.settled.owner.1
          ∙ ap (λ (d : Config). d.zone) asked
          ∙ ap (λ (d : Config). d.zone) u
          ∙ zone,
      ap (λ (d : Config). d.path_mappings) k.settled.owner.1
          ∙ ap (λ (d : Config). d.path_mappings) asked
          ∙ ap (λ (d : Config). d.path_mappings) u
          ∙ mappings,
    )
