-- ===== src/Cmd/Args/Steps.antt =====
-- The steps that `ProcessCommonFlags` has taken when it answers a configuration.
use irodsfs.Base.{
  ◌≡◌, ◌∙◌, refl, ap, sym, subst, ◌⊎◌, inl, inr, Bool, Option, none, some, List, Text, get_last?,
  arith, Option-cases,
}
use irodsfs.Base.Ints.{ℤ}
use irodsfs.Os.{Os}
use irodsfs.Users.{correct_system_user}
use irodsfs.Config.{Config, Yaml, correct_owner}
use irodsfs.Cmd.Urls.{update_config_from_irods_url, update_config}
use irodsfs.Config.Laws.{IsCorrected, correct_owner-IsCorrected}
use irodsfs.Config.Validation.{validate}
use irodsfs.Cmd.Args.{
  prepare, apply_url, ask_missing, settle, input_missing_params, complete, accepted,
  process_common_flags,
}
use irodsfs.Cmd.Args.FlagValues.{Flags, Result, ok, err, CommandError}
use irodsfs.Cmd.Args.Overrides.{merge_flags}

-- What `settle` makes of a configuration.
pub record IsSettled (os : Os) (last : Text) (before c : Config) (w : os.World) : Type 0 where
  pub is_valid : validate os c w ≡ none
  pub mount_path : os.abs last w ≡ some c.mount_path
  pub owner : IsCorrected os (record before { mount_path = c.mount_path }) c

pub settle_lem :
    (os : Os) (last : Text) (config c : Config) (w w' : os.World)
    → settle os last config w ≡ (ok c, w')
    → IsSettled os last config c w'
unfolding settle
settle_lem os last config c w w' e = elim (Option-cases (os.abs last w)) [
  | inl a ↦ absurd (ground (arith, e, a))
  | inr (m, a) ↦ elim (Option-cases (correct_owner os (record config { mount_path = m }))) [
    | inl o ↦ absurd (ground (arith, e, a, o))
    | inr (d, o) ↦ elim (Option-cases (validate os d w)) [
      | inr (bad, v) ↦ absurd (ground (arith, e, a, o, v))
      | inl v ↦
          let run : settle os last config w ≡ (ok d, w) = ground (arith, a, o, v) in
          let same_config : d ≡ c = cc in
          let same_world : w ≡ w' = cc in
          let corrected = correct_owner-IsCorrected os (record config { mount_path = m }) d o in
          let mounted : d.mount_path ≡ m = ap (λ (k : Config). k.mount_path) corrected.1 in
          subst (λ (v : os.World). IsSettled os last config c v) same_world
            (subst (λ (k : Config). IsSettled os last config k w) same_config
              (record {
                is_valid = v;
                mount_path = rw mounted a;
                owner =
                    subst (λ (p : Text). IsCorrected os (record config { mount_path = p }) d)
                      (sym mounted) corrected;
              }))
    ]
  ]
]

-- The second configuration's account and mappings, in the first.
abbrev pub readdress : Config → Config → Config
readdress before c = record before {
  host = c.host;
  port = c.port;
  proxy_user = c.proxy_user;
  client_user = c.client_user;
  zone = c.zone;
  password = c.password;
  path_mappings = c.path_mappings;
}

-- The second configuration with the tuning of the first: what is not about accounts, mappings, owners
-- and the mount point.
abbrev pub retune : Config → Config → Config
retune before c = record before {
  host = c.host;
  port = c.port;
  proxy_user = c.proxy_user;
  client_user = c.client_user;
  zone = c.zone;
  password = c.password;
  path_mappings = c.path_mappings;
  mount_path = c.mount_path;
  system_user = c.system_user;
  uid = c.uid;
  gid = c.gid;
}

abbrev pub Retuned : Config → Config → Type 0
Retuned before c = c ≡ retune before c

pub apply_url-readdress :
    (os : Os) (args : List Text) (config c : Config) (w w' : os.World)
    → apply_url os args config w ≡ (ok c, w')
    → c ≡ readdress config c
unfolding apply_url update_config_from_irods_url update_config
apply_url-readdress os args config c w w' e = ground arith

-- The questions are about the account's users and its password.
pub ask_missing-keeps :
    (os : Os) (stdin_closed : Bool) (config c : Config) (w w' : os.World)
    → ask_missing os stdin_closed config w ≡ (ok c, w')
    → c ≡ record config {
      proxy_user = c.proxy_user;
      client_user = c.client_user;
      password = c.password;
    }
unfolding ask_missing input_missing_params
ask_missing-keeps os stdin_closed config c w w' e = ground arith

pub ask_missing-readdress :
    (os : Os) (stdin_closed : Bool) (config c : Config) (w w' : os.World)
    → ask_missing os stdin_closed config w ≡ (ok c, w')
    → c ≡ readdress config c
ask_missing-readdress os stdin_closed config c w w' e =
    ap (λ (k : Config). readdress k c) (ask_missing-keeps os stdin_closed config c w w' e)

pub Result-cases :
    {W A : Type 0} (r : Result A × W)
    → ((e : CommandError) × (v : W) × (r ≡ (err e, v))) ⊎ ((a : A) × (v : W) × (r ≡ (ok a, v)))
Result-cases (ok a, v) = inr (a, v, refl)
Result-cases (err e, v) = inl (e, v, refl)

-- The way of a configuration from the flags to the end.
pub record IsCompleted (os : Os) (args : List Text) (stdin_closed : Bool) (before c : Config)
    (w w' : os.World) : Type 0 where
  pub last : Text
  pub with_url : Config
  pub asked : Config
  pub url_world : os.World
  pub asked_world : os.World
  pub last_arg : get_last? args ≡ some last
  pub applied : apply_url os args before w ≡ (ok with_url, url_world)
  pub answered : ask_missing os stdin_closed with_url url_world ≡ (ok asked, asked_world)
  pub settled : IsSettled os last asked c w'

complete_lem :
    (os : Os) (args : List Text) (stdin_closed : Bool) (config c : Config) (w w' : os.World)
    → complete os args stdin_closed config w ≡ (ok c, w')
    → IsCompleted os args stdin_closed config c w w'
unfolding complete
complete_lem os args stdin_closed config c w w' e = elim (Option-cases (get_last? args)) [
  | inl l ↦ absurd (ground (arith, e, l))
  | inr (last, l) ↦ elim (Result-cases (apply_url os args config w)) [
    | inl (bad, v, u) ↦ absurd (ground (arith, e, l, u))
    | inr (with_url, v, u) ↦ elim (Result-cases (ask_missing os stdin_closed with_url v)) [
      | inl (bad, x, q) ↦ absurd (ground (arith, e, l, u, q))
      | inr (asked, x, q) ↦ record {
        last = last;
        with_url = with_url;
        asked = asked;
        url_world = v;
        asked_world = x;
        last_arg = l;
        applied = u;
        answered = q;
        settled = settle_lem os last asked c x w' (ground (arith, e, l, u, q));
      }
    ]
  ]
]

pub record IsAccepted (os : Os) (yaml : Yaml) (flags : Flags) (args : List Text) (c : Config)
    (w w' : os.World) : Type 0 where
  pub prepared : Config
  pub stdin_closed : Bool
  pub merged : Config
  pub prepared_world : os.World
  pub merged_world : os.World
  pub ready : prepare os yaml flags w ≡ (ok (prepared, stdin_closed), prepared_world)
  pub overridden : merge_flags os flags prepared prepared_world ≡ (ok merged, merged_world)
  pub completed : IsCompleted os args stdin_closed merged c merged_world w'

pub accepted-IsAccepted :
    (os : Os) (yaml : Yaml) (flags : Flags) (args : List Text) (c : Config) (writer : Option Text)
    (w w' : os.World)
    → process_common_flags os yaml flags args w ≡ ((accepted c, writer), w')
    → IsAccepted os yaml flags args c w w'
unfolding process_common_flags
accepted-IsAccepted os yaml flags args c writer w w' e =
    elim (Result-cases (prepare os yaml flags w)) [
      | inl (bad, v, p) ↦ absurd (ground (arith, e, p))
      | inr ((prepared, closed), v, p) ↦ elim (Result-cases (merge_flags os flags prepared v)) [
        | inl (bad, x, m) ↦ absurd (ground (arith, e, p, m))
        | inr (merged, x, m) ↦ record {
          prepared = prepared;
          stdin_closed = closed;
          merged = merged;
          prepared_world = v;
          merged_world = x;
          ready = p;
          overridden = m;
          completed = elim (Result-cases (complete os args closed merged x)) [
            | inl (bad, y, k) ↦ absurd (ground (arith, e, p, m, k))
            | inr (d, y, k) ↦ complete_lem os args closed merged c x w' (ground (arith, e, p, m, k))
          ];
        }
      ]
    ]

-- What follows the flags leaves the tuning alone.
pub IsCompleted-Retuned :
    (os : Os) (args : List Text) (stdin_closed : Bool) (before c : Config) (w w' : os.World)
    → IsCompleted os args stdin_closed before c w w'
    → Retuned before c
IsCompleted-Retuned os args stdin_closed before c w w' a =
    let over : Config → Config = λ (k : Config). retune k c in
    let settled : c ≡ retune a.asked c = ap over a.settled.owner.1 in
    let answered : retune a.asked c ≡ retune a.with_url c = ap over (
      ask_missing-readdress os stdin_closed a.with_url a.asked a.url_world a.asked_world
        a.answered) in
    let applied : retune a.with_url c ≡ retune before c =
      ap over (apply_url-readdress os args before a.with_url w a.url_world a.applied) in
    settled ∙ answered ∙ applied

-- Up to the owner's correction the owner is that of the configuration before.
pub owner_of_completed :
    (os : Os) (args : List Text) (stdin_closed : Bool) (before c : Config) (w w' : os.World)
    → IsCompleted os args stdin_closed before c w w'
    → correct_system_user os before.system_user before.uid before.gid
      ≡ some (c.system_user, c.uid, c.gid)
owner_of_completed os args stdin_closed before c w w' a =
    let corrected : Config → Option (Text × ℤ × ℤ) =
      λ (k : Config). correct_system_user os k.system_user k.uid k.gid in
    let answered : corrected a.asked ≡ corrected a.with_url = ap corrected (
      ask_missing-readdress os stdin_closed a.with_url a.asked a.url_world a.asked_world
        a.answered) in
    let applied : corrected a.with_url ≡ corrected before =
      ap corrected (apply_url-readdress os args before a.with_url w a.url_world a.applied) in
    sym applied ∙ sym answered ∙ a.settled.owner.0
