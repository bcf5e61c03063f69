-- ===== src/Cmd/Args/FlagValues.antt =====
-- cmd/commons/args.go: the flags with their defaults, how one is read, and the errors of
-- `ProcessCommonFlags`. The parsing of a command line into values of flags is that of cobra; `Lookup` of a
-- flag that is not there is `none`.
use irodsfs.Base.{Bool, false, Option, none, some, List, Text, codes, [], ◌∷◌, if◌then◌else◌}
use irodsfs.Base.Ints.{ℤ, pos, negsuc}
use irodsfs.Os.{Os}
use irodsfs.Config.{minutes, read_ahead_max_default, connection_max_default}
use irodsfs.Config.Validation.{ConfigError, is_positive}
use irodsfs.Cmd.Urls.{unless_empty}

abbrev pub Flags : Type 0
Flags = Text → Option Text

-- The flags and the values that they have when they are not given.
unfoldable pub set_common_flags : Os → List (Text × Text)
set_common_flags os =
    (codes "version", codes "false")
    ∷ (codes "help", codes "false")
    ∷ (codes "debug", codes "false")
    ∷ (codes "log_level", [])
    ∷ (codes "profile", codes "false")
    ∷ (codes "foreground", codes "false")
    ∷ (codes "allow_other", codes "false")
    ∷ (codes "config", [])
    ∷ (codes "instance_id", [])
    ∷ (codes "log_path", [])
    ∷ (codes "host", [])
    ∷ (codes "port", os.format_int (pos 1247))
    ∷ (codes "zone", [])
    ∷ (codes "proxy_user", [])
    ∷ (codes "client_user", [])
    ∷ (codes "user", [])
    ∷ (codes "password", [])
    ∷ (codes "resource", [])
    ∷ (codes "path_mapping_file", [])
    ∷ (codes "readahead", os.format_int read_ahead_max_default)
    ∷ (codes "connection_max", os.format_int connection_max_default)
    ∷ (codes "operation_timeout", os.format_duration minutes)
    ∷ (codes "connection_idle_timeout", os.format_duration minutes)
    ∷ (codes "metadata_cache_timeout", os.format_duration minutes)
    ∷ (codes "metadata_cache_cleanup_time", os.format_duration minutes)
    ∷ (codes "no_permission_check", codes "false")
    ∷ (codes "no_set_xattr", codes "false")
    ∷ (codes "no_transaction", codes "false")
    ∷ (codes "uid", os.format_int (negsuc 0))
    ∷ (codes "gid", os.format_int (negsuc 0))
    ∷ (codes "sys_user", [])
    ∷ (codes "fuse_option", codes "[]")
    ∷ (codes "data_root", [])
    ∷ (codes "profile_port", os.format_int (negsuc 0))
    ∷ (codes "pool_endpoint", [])
    ∷ (codes "monitor_url", [])
    ∷ (codes "child_process", codes "false")
    ∷ []

-- What an error is about.
pub data CommandError : Type 0 where
  unreadable_config no_log_dir bad_number bad_duration bad_mappings no_mount_point : CommandError
  bad_url no_password bad_mount_point no_owner : CommandError
  invalid : ConfigError → CommandError

pub data Result (A : Type 0) : Type 0 where
  ok : A → Result A
  err : CommandError → Result A

abbrev pub Task : Type 0 → Type 0 → Type 0
Task W A = W → Result A × W

infixl 5 ◌>>=◌ ◌>>◌
abbrev pub ◌>>=◌ : {W A B : Type 0} → Task W A → (A → Task W B) → Task W B
◌>>=◌ m f w = let (r, w') = m w in elim r [ ok a ↦ f a w' | err e ↦ (err e, w') ]

abbrev pub ◌>>◌ : {W B : Type 0} → Task W (Unit {0}) → Task W B → Task W B
m >> k = m >>= λ u. k

abbrev pub return : {W A : Type 0} → A → Task W A
return a w = (ok a, w)

-- A value, or an error to return.
abbrev pub some_or : {W A : Type 0} → CommandError → Option A → Task W A
some_or e o w = elim o [ some a ↦ (ok a, w) | none ↦ (err e, w) ]

-- A call that answers nothing on errors.
abbrev pub call : {W A : Type 0} → CommandError → (W → Option A × W) → Task W A
call e f w = let (o, w') = f w in elim o [ some a ↦ (ok a, w') | none ↦ (err e, w') ]

abbrev pub check : {W : Type 0} → CommandError → (W → Bool × W) → Task W (Unit {0})
check e f w = let (b, w') = f w in if b then (ok tt, w') else (err e, w')

abbrev pub value_of : Option Text → Text
value_of none = []
value_of (some value) = value

-- A flag that counts when it is not empty, over the value `old`.
abbrev pub text_flag : Flags → Text → Text → Text
text_flag flags name old = unless_empty (value_of (flags name)) old

abbrev pub bool_flag : Os → Flags → Text → Bool
bool_flag os flags name = elim (flags name) [ none ↦ false | some value ↦ os.parse_bool value ]

-- A flag that counts when it is positive; `none` is an error.
abbrev pub positive_flag : Os → Flags → Text → ℤ → Option ℤ
positive_flag os flags name old = elim (flags name) [
  | none ↦ some old
  | some value ↦ elim (os.parse_int32 value) [
    | none ↦ none
    | some n ↦ some (if is_positive n then n else old)
  ]
]

abbrev pub duration_flag : Os → Flags → Text → ℤ → Option ℤ
duration_flag os flags name old = elim (flags name) [
  | none ↦ some old
  | some value ↦ os.parse_duration value
]

-- A flag that always counts.
abbrev pub setting_flag : Os → Flags → Text → Bool → Bool
setting_flag os flags name old = elim (flags name) [ none ↦ old | some value ↦ os.parse_bool value ]
