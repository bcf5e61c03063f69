-- ===== src/Config/Validation.antt =====
-- commons/config.go: `Validate` and `ParsePoolServiceEndpoint`. An error of the latter is `none`.
pub mod Laws
use irodsfs.Base.{
  Bool, true, false, not, ◌&&◌, ◌||◌, Option, none, some, List, Text, codes, same, length, ◌==◌, [],
  ◌∷◌, if◌then◌else◌,
}
use irodsfs.Base.Ints.{ℤ, pos, negsuc, is_negative}
use irodsfs.Os.{Stat, not_exist, unreadable, found, Os}
use irodsfs.Config.{Config}

-- The network and the address, or an error.
unfoldable pub parse_pool_service_endpoint : Os → Text → Option (Text × Text)
parse_pool_service_endpoint os endpoint = elim (os.parse_url endpoint) [
  | none ↦ none
  | some u ↦
      if same u.scheme (codes "tcp")
      then some (codes "tcp", u.host)
      else if same u.scheme (codes "unix")
      then some (codes "unix", os.path_join (codes "/") u.path)
      else if same u.scheme []
      then (if not (length u.host == 0) then some (codes "tcp", u.host) else none)
      else none
]

-- What an error of `Validate` is about.
pub data ConfigError : Type 0 where
  bad_host bad_port bad_profile_port bad_proxy_user bad_client_user bad_zone bad_password :
      ConfigError
  bad_path_mappings bad_uid bad_gid bad_mount_path bad_data_root bad_read_ahead : ConfigError
  bad_connection_max bad_policy bad_encryption bad_endpoint : ConfigError

-- `if bad { return err }`, and what follows. Tests in a row on one setting are one test here.
abbrev pub unless : Bool → ConfigError → Option ConfigError → Option ConfigError
unless bad err rest = if bad then some err else rest

abbrev pub is_empty {ℓ} : {A : Type ℓ} → List A → Bool
is_empty [] = true
is_empty (x ∷ xs) = false

-- `z > 0`
abbrev pub is_positive : ℤ → Bool
is_positive (pos n) = not (n == 0)
is_positive (negsuc n) = false

abbrev pub is_bad_mount : Stat → Bool
is_bad_mount not_exist = true
is_bad_mount unreadable = true
is_bad_mount (found dir) = not dir.is_dir || not dir.is_writable

-- The part on connections, encryption and the pool.
unfoldable pub validate_connection : Os → Config → Option ConfigError
validate_connection os c = unless (is_negative c.read_ahead_max) bad_read_ahead (
    unless (not (is_positive c.connection_max)) bad_connection_max (
      unless (c.client_server_negotiation && is_empty c.cs_negotiation_policy) bad_policy (
        unless
          ((os.is_pam c.auth_scheme || os.uses_ssl c.cs_negotiation_policy)
            && (not (is_positive c.encryption_key_size)
                || is_empty c.encryption_algorithm
                || not (is_positive c.salt_size)
                || not (is_positive c.hash_rounds)))
          bad_encryption
          (elim (parse_pool_service_endpoint os c.pool_endpoint) [
            | some address ↦ none
            | none ↦ if is_empty c.pool_endpoint then none else some bad_endpoint
          ]))))

-- The part on the account, and the part on paths and the owner.
unfoldable pub validate_account : Config → Option ConfigError
validate_account c = unless (is_empty c.host) bad_host (
    unless (not (is_positive c.port)) bad_port (
      unless (c.profile && not (is_positive c.profile_service_port)) bad_profile_port (
        unless (is_empty c.proxy_user) bad_proxy_user (
          unless (is_empty c.client_user) bad_client_user
            (unless (is_empty c.zone) bad_zone (unless (is_empty c.password) bad_password none))))))

unfoldable pub validate_paths : (os : Os) → Config → os.World → Option ConfigError
validate_paths os c w =
    unless (is_empty c.path_mappings || not (os.are_valid_mappings c.path_mappings))
      bad_path_mappings
      (unless (is_negative c.uid) bad_uid (
        unless (is_negative c.gid) bad_gid (
          unless (is_empty c.mount_path || is_bad_mount (os.stat c.mount_path w)) bad_mount_path
            (unless (is_empty c.data_root_path) bad_data_root none))))

abbrev pub or_else : Option ConfigError → Option ConfigError → Option ConfigError
or_else none rest = rest
or_else (some err) rest = some err

-- The first error of the three parts.
unfoldable pub validate : (os : Os) → Config → os.World → Option ConfigError
unfolding validate_account validate_paths validate_connection
validate os c w =
    or_else (validate_account c) (or_else (validate_paths os c w) (validate_connection os c))
