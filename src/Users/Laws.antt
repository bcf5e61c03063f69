-- ===== src/Users/Laws.antt =====
-- What `CorrectSystemUser` answers, and that correcting again changes nothing.
use irodsfs.Base.{
  ◌≡◌, ◌≢◌, ◌⊎◌, inl, inr, true, false, arith, Option, some, Text, refl, ◌∷◌, ◌==◌, [], length,
  Option-cases, Bool-cases,
}
use irodsfs.Base.Ints.{ℤ, is_negative}
use irodsfs.Os.{User, Os}
use irodsfs.Users.{ids_of, correct_system_user}

-- The operating system's IDs are not negative.
abbrev pub IsNatural : Option User → Type 0
IsNatural o =
    (u : User) (name : Text) (uid gid : ℤ)
    → o ≡ some u
    → ids_of u ≡ some (name, uid, gid)
    → (is_negative uid ≡ false) × (is_negative gid ≡ false)

empty : (t : Text) → (length t == 0) ≡ true → t ≡ []
empty [] e = refl
empty (x ∷ t) e = absurd (ground (arith, e))

-- `CorrectSystemUser` answers IDs that `Validate` takes, neither of them negative, if those of the
-- operating system are not. A name that is given is kept.
pub correct_system_user_lem :
    (os : Os) (username : Text) (uid gid : ℤ) (name : Text) (newuid newgid : ℤ)
    → ((n : Text) → IsNatural (os.lookup n))
    → ((id : ℤ) → IsNatural (os.lookup_id id))
    → IsNatural os.current
    → correct_system_user os username uid gid ≡ some (name, newuid, newgid)
    → (is_negative newuid ≡ false)
      × (is_negative newgid ≡ false)
      × ((username ≡ []) ⊎ (name ≡ username))
unfolding correct_system_user
correct_system_user_lem os username uid gid name newuid newgid a b c e =
    elim (Bool-cases (length username == 0)) [
      | inr n ↦ elim (Option-cases (os.lookup username)) [
        | inl o ↦ absurd (ground (arith, e, n, o))
        | inr (u, o) ↦ elim (Option-cases (ids_of u)) [
          | inl i ↦ absurd (ground (arith, e, n, o, i))
          | inr ((m, x, y), i) ↦ ground (arith, e, n, o, i, a username u m x y o i)
        ]
      ]
      | inl n ↦ elim (Bool-cases (is_negative uid)) [
        | inl g ↦ elim (Option-cases os.current) [
          | inl o ↦ absurd (ground (arith, e, n, g, o))
          | inr (u, o) ↦ elim (Option-cases (ids_of u)) [
            | inl i ↦ absurd (ground (arith, e, n, g, o, i))
            | inr ((m, x, y), i) ↦ ground (arith, e, n, g, o, i, c u m x y o i, empty username n)
          ]
        ]
        | inr g ↦ elim (Option-cases (os.lookup_id uid)) [
          | inl o ↦ ground (arith, e, n, g, o, empty username n)
          | inr (u, o) ↦ elim (Option-cases (ids_of u)) [
            | inl i ↦ absurd (ground (arith, e, n, g, o, i))
            | inr ((m, x, y), i) ↦
                ground (arith, e, n, g, o, i, b uid u m x y o i, empty username n)
          ]
        ]
      ]
    ]

-- A name that is given settles the IDs.
pub correct_system_user-named :
    (os : Os) (username : Text) (uid gid : ℤ) (name : Text) (newuid newgid : ℤ)
    → username ≢ []
    → correct_system_user os username uid gid ≡ some (name, newuid, newgid)
    → (name ≡ username)
      × ((u : User) × (given : Text) × (os.lookup username ≡ some u)
          × (ids_of u ≡ some (given, newuid, newgid)))
unfolding correct_system_user
correct_system_user-named os [] uid gid name newuid newgid n e = absurd (n refl)
correct_system_user-named os (x ∷ username) uid gid name newuid newgid n e =
    elim (Option-cases (os.lookup (x ∷ username))) [
      | inl o ↦ absurd (ground (arith, e, o))
      | inr (u, o) ↦ elim (Option-cases (ids_of u)) [
        | inl i ↦ absurd (ground (arith, e, o, i))
        | inr ((given, a, b), i) ↦ (ground (arith, e, o, i), (u, given, o, ground (arith, e, o, i)))
      ]
    ]

-- The users of the system can be looked up by the names that they are reported with.
pub record AreNamed (os : Os) : Type 0 where
  pub by_id : (id : ℤ) (u : User) → os.lookup_id id ≡ some u → os.lookup u.username ≡ some u
  pub id_name : (id : ℤ) (u : User) → os.lookup_id id ≡ some u → u.username ≢ []
  pub by_current : (u : User) → os.current ≡ some u → os.lookup u.username ≡ some u
  pub current_name : (u : User) → os.current ≡ some u → u.username ≢ []

of_user :
    (os : Os) (u : User) (newuid newgid : ℤ) (name : Text)
    → u.username ≢ []
    → os.lookup u.username ≡ some u
    → ids_of u ≡ some (name, newuid, newgid)
    → correct_system_user os name newuid newgid ≡ some (name, newuid, newgid)
unfolding correct_system_user
of_user os u newuid newgid name n l i =
    let named : name ≡ u.username = ground (arith, i) in
    elim (Bool-cases (length u.username == 0)) [
      | inl z ↦ absurd (n (empty u.username z))
      | inr z ↦ ground (arith, i, l, named, z)
    ]

-- Correcting the owner again changes nothing, if users can be looked up by the names that they are
-- reported with.
pub correct_system_user-idempotent :
    (os : Os) (username : Text) (uid gid : ℤ) (name : Text) (newuid newgid : ℤ)
    → AreNamed os
    → correct_system_user os username uid gid ≡ some (name, newuid, newgid)
    → correct_system_user os name newuid newgid ≡ some (name, newuid, newgid)
unfolding correct_system_user
correct_system_user-idempotent os username uid gid name newuid newgid a e =
    elim (Bool-cases (length username == 0)) [
      | inr n ↦ elim (Option-cases (os.lookup username)) [
        | inl o ↦ absurd (ground (arith, e, n, o))
        | inr (u, o) ↦ elim (Option-cases (ids_of u)) [
          | inl i ↦ absurd (ground (arith, e, n, o, i))
          | inr ((m, x, y), i) ↦ ground (arith, e, n, o, i)
        ]
      ]
      | inl n ↦ elim (Bool-cases (is_negative uid)) [
        | inl g ↦ elim (Option-cases os.current) [
          | inl o ↦ absurd (ground (arith, e, n, g, o))
          | inr (u, o) ↦
              of_user os u newuid newgid name (a.current_name u o) (a.by_current u o)
                (ground (arith, e, n, g, o))
        ]
        | inr g ↦ elim (Option-cases (os.lookup_id uid)) [
          | inl o ↦ ground (arith, e, n, g, o)
          | inr (u, o) ↦
              of_user os u newuid newgid name (a.id_name uid u o) (a.by_id uid u o)
                (ground (arith, e, n, g, o))
        ]
      ]
    ]
