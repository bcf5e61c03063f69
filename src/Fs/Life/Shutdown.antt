-- ===== src/Fs/Life/Shutdown.antt =====
-- The end of a file system: cmd/main.go calls `Stop` from its signal handler and from the deferred function
-- of `run`, which calls `Release` too, so that the calls come in any order and number.
use irodsfs.Base.{
  ◌≡◌, refl, ap, ◌∙◌, inl, inr, ℕ, ◌+◌, Bool, true, false, Option, none, some, List, Text, [], ◌∷◌,
  arith, Option-cases, if◌then◌else◌,
}
use irodsfs.Env.{External}
use irodsfs.Fs.Life.Calls.{Services}
use irodsfs.Fs.Life.{Irodsfs, stop_serving, release, released}

pub data EndCall : Type 0 where
  to_stop to_release : EndCall

unfoldable pub is_stop : EndCall → Bool
is_stop to_stop = true
is_stop to_release = false

unfoldable pub has_stop : List EndCall → Bool
unfolding is_stop
has_stop [] = false
has_stop (call ∷ calls) = if is_stop call then true else has_stop calls

unfoldable pub has_release : List EndCall → Bool
unfolding is_stop
has_release [] = false
has_release (call ∷ calls) = if is_stop call then has_release calls else true

-- `b` as a number.
abbrev pub once : Bool → ℕ
once true = 1
once false = 0

module _ (E : External) (S : Services E.World) where
  unfoldable pub end_by : EndCall → Irodsfs E S → E.World → Irodsfs E S × E.World
  end_by to_stop = stop_serving E S
  end_by to_release = release E S

  unfoldable pub end_by_all : List EndCall → Irodsfs E S → E.World → Irodsfs E S × E.World
  end_by_all [] fs w = (fs, w)
  end_by_all (call ∷ calls) fs w = end_by_all calls (end_by call fs w).0 (end_by call fs w).1

  -- What has happened in a world: how often FUSE was unmounted, and how often a client was released.
  pub record Counts : Type 0 where
    pub unmounts : E.World → ℕ
    pub releases : E.World → ℕ
    pub unmount :
        (path : Text) (w : E.World)
        → (unmounts (S.unmount_fuse path w).1 ≡ unmounts w + 1)
          × (releases (S.unmount_fuse path w).1 ≡ releases w)
    pub client :
        (client : S.Client) (w : E.World)
        → (unmounts (S.release_client client w) ≡ unmounts w)
          × (releases (S.release_client client w) ≡ releases w + 1)
    pub reporter :
        (reporter : S.Reporter) (w : E.World)
        → (unmounts (S.release_reporter reporter w) ≡ unmounts w)
          × (releases (S.release_reporter reporter w) ≡ releases w)
    pub instance_report :
        (i : S.Instance) (w : E.World)
        → (unmounts (S.terminate_instance i w) ≡ unmounts w)
          × (releases (S.terminate_instance i w) ≡ releases w)

  module _ (n : Counts) where
    -- How often FUSE may be unmounted, and a client released, from here on.
    abbrev mounted : Irodsfs E S → ℕ
    mounted fs = if fs.terminated then 0 else 1

    abbrev connected : Irodsfs E S → ℕ
    connected fs = elim (fs.fs_client) [ none ↦ 0 | some client ↦ 1 ]

    stop_once :
        (fs : Irodsfs E S) (w : E.World)
        → (n.unmounts (stop_serving E S fs w).1 ≡ n.unmounts w + mounted fs)
          × (n.releases (stop_serving E S fs w).1 ≡ n.releases w)
          × (mounted (stop_serving E S fs w).0 ≡ 0)
          × (connected (stop_serving E S fs w).0 ≡ connected fs)
    unfolding stop_serving
    stop_once fs w = ground (arith, n.unmount fs.config.mount_path w)

    released_quiet :
        {A : Type 0} {stop : A → E.World → E.World}
        → ((a : A) (w : E.World)
            → (n.unmounts (stop a w) ≡ n.unmounts w) × (n.releases (stop a w) ≡ n.releases w))
        → (o : Option A) (w : E.World)
        → (n.unmounts (released o stop w) ≡ n.unmounts w)
          × (n.releases (released o stop w) ≡ n.releases w)
    released_quiet quiet none w = (refl, refl)
    released_quiet quiet (some a) w = quiet a w

    released_client :
        (fs : Irodsfs E S) (w : E.World)
        → (n.unmounts (released fs.fs_client S.release_client w) ≡ n.unmounts w)
          × (n.releases (released fs.fs_client S.release_client w) ≡ n.releases w + connected fs)
    released_client fs w = elim (Option-cases fs.fs_client) [
      | inl e ↦ ground (arith, e)
      | inr (client, e) ↦ ground (arith, e, n.client client w)
    ]

    release_once :
        (fs : Irodsfs E S) (w : E.World)
        → (n.unmounts (release E S fs w).1 ≡ n.unmounts w)
          × (n.releases (release E S fs w).1 ≡ n.releases w + connected fs)
          × (mounted (release E S fs w).0 ≡ mounted fs)
          × (connected (release E S fs w).0 ≡ 0)
    unfolding release
    release_once fs w =
        let v = released fs.instance_report_client S.terminate_instance w in
        let x = released fs.report_client S.release_reporter v in
        let (i, i') = released_quiet n.instance_report fs.instance_report_client w in
        let (r, r') = released_quiet n.reporter fs.report_client v in
        let (c, c') = released_client fs x in
        (c ∙ r ∙ i, c' ∙ ap (λ (k : ℕ). k + connected fs) (r' ∙ i'), refl, refl)

    end_by_all_once :
        (calls : List EndCall) (fs : Irodsfs E S) (w : E.World)
        → (n.unmounts (end_by_all calls fs w).1
            ≡ n.unmounts w + (if has_stop calls then mounted fs else 0))
          × (n.releases (end_by_all calls fs w).1
              ≡ n.releases w + (if has_release calls then connected fs else 0))
    unfolding end_by_all end_by has_stop has_release
    end_by_all_once [] fs w = ground arith
    end_by_all_once (to_stop ∷ calls) fs w = ground (
      arith,
      stop_once fs w,
      end_by_all_once calls (stop_serving E S fs w).0 (stop_serving E S fs w).1,
    )
    end_by_all_once (to_release ∷ calls) fs w =
        ground (
          arith,
          release_once fs w,
          end_by_all_once calls (release E S fs w).0 (release E S fs w).1,
        )

    -- Whatever the order and the number of the calls of `Stop` and `Release`, FUSE is unmounted exactly
    -- once if `Stop` is called at all, and the client of the server is released exactly once if
    -- `Release` is called at all, for a file system that is running and has a client.
    pub shutdown_once :
        (calls : List EndCall) (fs : Irodsfs E S) (client : S.Client) (w : E.World)
        → fs.terminated ≡ false
        → fs.fs_client ≡ some client
        → (n.unmounts (end_by_all calls fs w).1 ≡ n.unmounts w + once (has_stop calls))
          × (n.releases (end_by_all calls fs w).1 ≡ n.releases w + once (has_release calls))
    shutdown_once calls fs client w t c = ground (arith, t, c, end_by_all_once calls fs w)
