-- ===== src/Config/Validation/Laws.antt =====
-- What a configuration has that `Validate` accepts.
use irodsfs.Base.{◌≡◌, ◌≢◌, ◌↔◌, List, ◌⊎◌, true, false, arith, Option, none, some, ◌∷◌, []}
use irodsfs.Base.Ints.{ℤ, is_negative}
use irodsfs.Os.{FileInfo, found, Os}
use irodsfs.Config.{Config}
use irodsfs.Config.Validation.{
  validate_account, validate_paths, or_else, ConfigError, parse_pool_service_endpoint, is_empty,
  is_positive, validate_connection, validate,
}

-- A port, or a size.
abbrev pub IsPositive : ℤ → Type 0
IsPositive z = is_positive z ≡ true

-- What `Validate` asks of the connections.
abbrev pub IsValidConnection : Os → Config → Type 0
IsValidConnection os c =
    (is_negative c.read_ahead_max ≡ false)
    × IsPositive c.connection_max
    × (c.client_server_negotiation ≡ true → c.cs_negotiation_policy ≢ [])
    × ((os.is_pam c.auth_scheme ≡ true) ⊎ (os.uses_ssl c.cs_negotiation_policy ≡ true)
        → IsPositive c.encryption_key_size
          × (c.encryption_algorithm ≢ [])
          × IsPositive c.salt_size
          × IsPositive c.hash_rounds)
    × (c.pool_endpoint ≢ [] → parse_pool_service_endpoint os c.pool_endpoint ≢ none)

abbrev pub IsValidAccount : Config → Type 0
IsValidAccount c =
    (c.host ≢ [])
    × IsPositive c.port
    × (c.profile ≡ true → IsPositive c.profile_service_port)
    × (c.proxy_user ≢ [])
    × (c.client_user ≢ [])
    × (c.zone ≢ [])
    × (c.password ≢ [])

abbrev pub HasValidPaths : (os : Os) → Config → os.World → Type 0
HasValidPaths os c w =
    ((c.path_mappings ≢ []) × (os.are_valid_mappings c.path_mappings ≡ true))
    × (is_negative c.uid ≡ false)
    × (is_negative c.gid ≡ false)
    × ((c.mount_path ≢ [])
        × ((dir : FileInfo) × (os.stat c.mount_path w ≡ found dir)
            × (dir.is_dir ≡ true)
            × (dir.is_writable ≡ true)))
    × (c.data_root_path ≢ [])

is_empty_iff {ℓ} : {A : Type ℓ} (xs : List A) → is_empty xs ≡ true ↔ xs ≡ []
is_empty_iff [] = ground arith
is_empty_iff (x ∷ xs) = ground arith

validate_connection_iff :
    (os : Os) (c : Config) → validate_connection os c ≡ none ↔ IsValidConnection os c
unfolding validate_connection
validate_connection_iff os c = ground (
  arith,
  is_empty_iff c.cs_negotiation_policy,
  is_empty_iff c.encryption_algorithm,
  is_empty_iff c.pool_endpoint,
)

validate_account_iff : (c : Config) → validate_account c ≡ none ↔ IsValidAccount c
unfolding validate_account
validate_account_iff c = ground (
  arith,
  is_empty_iff c.host,
  is_empty_iff c.proxy_user,
  is_empty_iff c.client_user,
  is_empty_iff c.zone,
  is_empty_iff c.password,
)

validate_paths_iff :
    (os : Os) (c : Config) (w : os.World) → validate_paths os c w ≡ none ↔ HasValidPaths os c w
unfolding validate_paths
validate_paths_iff os c w =
    ground (
      arith,
      is_empty_iff c.path_mappings,
      is_empty_iff c.mount_path,
      is_empty_iff c.data_root_path,
    )

or_else_iff : (x y : Option ConfigError) → or_else x y ≡ none ↔ (x ≡ none) × (y ≡ none)
or_else_iff none y = ground arith
or_else_iff (some x) y = ground arith

-- `Validate` accepts a configuration exactly when it has all the parts that are needed, its numbers are
-- in range, its mappings are valid, the mount point is a directory that can be written to, the
-- parameters of the encryption are there where one is asked for, and the endpoint of the pool, if there
-- is one, can be parsed.
pub validate_iff :
    (os : Os) (c : Config) (w : os.World)
    → validate os c w ≡ none ↔ IsValidAccount c × HasValidPaths os c w × IsValidConnection os c
unfolding validate
validate_iff os c w =
    let (a, a') = validate_account_iff c in
    let (b, b') = validate_paths_iff os c w in
    let (d, d') = validate_connection_iff os c in
    let rest = or_else (validate_paths os c w) (validate_connection os c) in
    let (u, u') = or_else_iff (validate_account c) rest in
    let (v, v') = or_else_iff (validate_paths os c w) (validate_connection os c) in
    (
      λ e. let (x, y) = u e in let (z, w) = v y in (a x, b z, d w),
      λ (x, y, z). u' (a' x, v' (b' y, d' z)),
    )
