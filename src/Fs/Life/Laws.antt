-- ===== src/Fs/Life/Laws.antt =====
-- What a file system is when it is made, and after its release.
use irodsfs.Base.{
  ◌≡◌, refl, ap, sym, ◌∙◌, subst, inl, inr, Bool, true, false, Option, none, some, List, Text,
  length, ◌==◌, arith, Option-cases, Bool-cases,
}
use irodsfs.Config.{Config}
use irodsfs.Os.{PathMapping}
use irodsfs.HandleMap.{FileHandleMap, new_file_handle_map}
use irodsfs.HandleMap.Consistency.{IsConsistent, empty-IsConsistent}
use irodsfs.Env.{External}
use irodsfs.Fs.{stop}
use irodsfs.Fs.Life.{
  auth_scheme_of, account_of, connect, Irodsfs, start_reporting, new_irodsfs, uint32, with_client,
  new_file_system, release, stop_serving, sys_of,
}
use irodsfs.Fs.Life.Calls.{AuthScheme, auth_pam, auth_native, auth_unknown, auth_other, Services}

abbrev is_pam : AuthScheme → Bool
is_pam auth_pam = true
is_pam auth_native = false
is_pam auth_unknown = false
is_pam (auth_other scheme) = false

module _ (E : External) (S : Services E.World) where
  -- Releasing a file system a second time does nothing.
  pub release-release :
      (fs : Irodsfs E S) (w w' : E.World)
      → release E S (release E S fs w).0 w' ≡ ((release E S fs w).0, w')
  unfolding release
  release-release fs w w' = refl

  -- What `new_file_system` has done when the client is there.
  pub new_file_system-from :
      (config : Config) (account : S.Account) (client : S.Client) (w v : E.World)
      → account_of E S config ≡ some account
      → connect E S config account w ≡ (some client, v)
      → new_file_system E S config w ≡ with_client E S config account client v
  unfolding new_file_system
  new_file_system-from config account client w v a c = ground (arith, a, c)

  -- What a file system is before it is started.
  pub record IsFresh (config : Config) (fs : Irodsfs E S) : Type 0 where
    pub no_server : fs.fuse_server ≡ none
    pub has_client : (client : S.Client) × (fs.fs_client ≡ some client)
    pub is_running : fs.terminated ≡ false
    pub settings : fs.config ≡ config
    pub owner : (fs.uid ≡ uint32 config.uid) × (fs.gid ≡ uint32 config.gid)
    pub no_handle :
        (m : FileHandleMap) × (fs.file_handle_map ≡ some m)
        × (m ≡ new_file_handle_map)
        × IsConsistent m

  with_client-IsFresh :
      (config : Config) (account : S.Account) (client : S.Client) (fs : Irodsfs E S)
      (w w' : E.World)
      → with_client E S config account client w ≡ (some fs, w')
      → IsFresh config fs
  unfolding with_client
  with_client-IsFresh config account client fs w w' e =
      elim (Bool-cases (S.new_vpath_manager client config.path_mappings w).0) [
        | inr m ↦ absurd (ground (arith, e, m))
        | inl m ↦
            let (reporter, started, v) =
              start_reporting E S config (S.new_vpath_manager client config.path_mappings w).1 in
            elim (Option-cases (S.list_user_groups client (S.client_user account) v).0) [
              | inl g ↦ absurd (ground (arith, e, m, g))
              | inr (groups, g) ↦
                  let made : new_irodsfs E S config client groups reporter started ≡ fs =
                    ground (arith, e, m, g) in
                  subst (λ (k : Irodsfs E S). IsFresh config k) made
                    (record {
                      no_server = refl;
                      has_client = (client, refl);
                      is_running = refl;
                      settings = refl;
                      owner = (refl, refl);
                      no_handle = (new_file_handle_map, refl, refl, empty-IsConsistent);
                    })
            ]
      ]

  -- A file system that is made has a client of the server and no connection to FUSE, is not terminated,
  -- keeps the configuration with its owner as numbers of 32 bits, and has no open handle, so that its
  -- map of handles is consistent.
  pub new_file_system-IsFresh :
      (config : Config) (fs : Irodsfs E S) (w w' : E.World)
      → new_file_system E S config w ≡ (some fs, w')
      → IsFresh config fs
  unfolding new_file_system
  new_file_system-IsFresh config fs w w' e = elim (Option-cases (account_of E S config)) [
    | inl a ↦ absurd (ground (arith, e, a))
    | inr (account, a) ↦ elim (Option-cases (connect E S config account w).0) [
      | inl c ↦ absurd (ground (arith, e, a, c))
      | inr (client, c) ↦
          with_client-IsFresh config account client fs (connect E S config account w).1 w'
            (ground (arith, e, a, c))
    ]
  ]

  -- The calls that follow the connection keep what holds of the world.
  pub record Keeps (P : E.World → Type 0) : Type 0 where
    pub mappings :
        (client : S.Client) (l : List PathMapping) (w : E.World)
        → P w
        → P (S.new_vpath_manager client l w).1
    pub reporter : (url : Text) (w : E.World) → P w → P (S.new_reporter url w).1
    pub instance_report :
        (reporter : S.Reporter) (config : Config) (scheme : AuthScheme) (w : E.World)
        → P w
        → P (S.start_instance reporter config scheme w).1
    pub groups :
        (client : S.Client) (user : Text) (w : E.World)
        → P w
        → P (S.list_user_groups client user w).1

  start_reporting-keeps :
      (P : E.World → Type 0) (config : Config) (w : E.World)
      → Keeps P
      → P w
      → P (start_reporting E S config w).2
  unfolding start_reporting
  start_reporting-keeps P config w k p = elim (Bool-cases (length config.monitor_url == 0)) [
    | inl n ↦ rw n p
    | inr n ↦ rw n (
        k.instance_report (S.new_reporter config.monitor_url w).0 config (auth_scheme_of E S config)
          (S.new_reporter config.monitor_url w).1 (k.reporter config.monitor_url w p))
  ]

  with_client-keeps :
      (P : E.World → Type 0) (config : Config) (account : S.Account) (client : S.Client)
      (w : E.World)
      → Keeps P
      → P w
      → P (with_client E S config account client w).1
  unfolding with_client
  with_client-keeps P config account client w k p =
      let v = (S.new_vpath_manager client config.path_mappings w).1 in
      let mapped : P v = k.mappings client config.path_mappings w p in
      elim (Bool-cases (S.new_vpath_manager client config.path_mappings w).0) [
        | inr m ↦ rw m mapped
        | inl m ↦
            let (reporter, started, x) = start_reporting E S config v in
            let reported : P (start_reporting E S config v).2 =
              start_reporting-keeps P config v k mapped in
            let listed =
              k.groups client (S.client_user account) (start_reporting E S config v).2 reported in
            elim (Option-cases
              (S.list_user_groups client (S.client_user account)
                (start_reporting E S config v).2).0) [
                  | inl g ↦ rw m (rw g listed)
                  | inr (groups, g) ↦ rw m (rw g listed)
                ]
      ]

  -- The bug of the forgotten client: when the mappings or the groups of the user cannot be had, making a
  -- file system fails after the client has connected, and nobody releases the client. So whatever
  -- holds of the world once the client is connected, and is kept by the calls that follow, such as
  -- that the connection is open, holds after the failure.
  pub failed_new_file_system-keeps :
      (P : E.World → Type 0) (config : Config) (account : S.Account) (client : S.Client)
      (w v w' : E.World)
      → Keeps P
      → account_of E S config ≡ some account
      → connect E S config account w ≡ (some client, v)
      → P v
      → new_file_system E S config w ≡ (none, w')
      → P w'
  failed_new_file_system-keeps P config account client w v w' k a c p e =
      let from = new_file_system-from config account client w v a c in
      subst P (ap (λ (r : Option (Irodsfs E S) × E.World). r.1) (sym from ∙ e))
        (with_client-keeps P config account client v k p)

  -- To the handlers, stopping the file system is what `stop` of the parent module does.
  pub stop_serving-stop :
      (fs : Irodsfs E S) (w : E.World)
      → (S.unmount_fuse fs.config.mount_path w).1 ≡ (E.unmount_fuse w).1
      → sys_of E S (stop_serving E S fs w).0 (stop_serving E S fs w).1 ≡ stop E (sys_of E S fs w)
  unfolding stop_serving stop
  stop_serving-stop fs w e = elim (Bool-cases fs.terminated) [
    | inl t ↦ ground (arith, t, e)
    | inr t ↦ ground (arith, t, e)
  ]
