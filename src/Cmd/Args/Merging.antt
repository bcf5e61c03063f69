-- ===== src/Cmd/Args/Merging.antt =====
-- What the flags make of a configuration's settings.
use irodsfs.Base.{◌≡◌, inl, inr, some, codes, arith, Option-cases, List}
use irodsfs.Base.Ints.{ℤ}
use irodsfs.Os.{PathMapping, Os}
use irodsfs.Config.{Config}
use irodsfs.Cmd.Args.FlagValues.{Flags, ok, positive_flag, duration_flag}
use irodsfs.Cmd.Args.Overrides.{Tuning, read_tuning, overridden, read_mappings, merge_flags}
use irodsfs.Cmd.Args.Steps.{Result-cases}

-- The numbers and durations, from the flags and the configuration before.
pub record IsTuning (os : Os) (flags : Flags) (before : Config) (t : Tuning) : Type 0 where
  pub read_ahead_max :
      positive_flag os flags (codes "readahead") before.read_ahead_max ≡ some t.read_ahead_max
  pub connection_max :
      positive_flag os flags (codes "connection_max") before.connection_max ≡ some t.connection_max
  pub operation_timeout :
      duration_flag os flags (codes "operation_timeout") before.operation_timeout
      ≡ some t.operation_timeout
  pub connection_idle_timeout :
      duration_flag os flags (codes "connection_idle_timeout") before.connection_idle_timeout
      ≡ some t.connection_idle_timeout
  pub metadata_cache_timeout :
      duration_flag os flags (codes "metadata_cache_timeout") before.metadata_cache_timeout
      ≡ some t.metadata_cache_timeout
  pub metadata_cache_cleanup_time :
      duration_flag os flags (codes "metadata_cache_timeout") before.metadata_cache_cleanup_time
      ≡ some t.metadata_cache_cleanup_time

read_tuning-IsTuning :
    {W : Type 0} (os : Os) (flags : Flags) (before : Config) (t : Tuning) (w w' : W)
    → read_tuning os flags before w ≡ (ok t, w')
    → IsTuning os flags before t
unfolding read_tuning
read_tuning-IsTuning os flags before t w w' e = record {
  read_ahead_max = ground arith;
  connection_max = ground arith;
  operation_timeout = ground arith;
  connection_idle_timeout = ground arith;
  metadata_cache_timeout = ground arith;
  metadata_cache_cleanup_time = ground arith;
}

pub merge_flags_lem :
    (os : Os) (flags : Flags) (before c : Config) (w w' : os.World)
    → merge_flags os flags before w ≡ (ok c, w')
    → (port : ℤ) × (path_mappings : List PathMapping) × (t : Tuning) × IsTuning os flags before t
      × (c ≡ overridden os flags port path_mappings t before)
unfolding merge_flags
merge_flags_lem os flags before c w w' e =
    elim (Option-cases (positive_flag os flags (codes "port") before.port)) [
      | inl p ↦ absurd (ground (arith, e, p))
      | inr (port, p) ↦ elim (Result-cases (read_mappings os flags before w)) [
        | inl (bad, v, m) ↦ absurd (ground (arith, e, p, m))
        | inr (mappings, v, m) ↦ elim (Result-cases (read_tuning os flags before v)) [
          | inl (bad, x, r) ↦ absurd (ground (arith, e, p, m, r))
          | inr (t, x, r) ↦ (
            port,
            mappings,
            t,
            read_tuning-IsTuning os flags before t v x r,
            ground (arith, e, p, m, r),
          )
        ]
      ]
    ]
