-- ===== src/Config/Laws.antt =====
-- What the methods of a configuration answer.
use irodsfs.Base.{◌≡◌, inl, inr, some, arith, Option-cases}
use irodsfs.Os.{Os}
use irodsfs.Users.{correct_system_user}
use irodsfs.Config.{Config, correct_owner}

-- What becomes of a configuration whose owner is corrected.
abbrev pub IsCorrected : Os → Config → Config → Type 0
IsCorrected os before c =
    (correct_system_user os before.system_user before.uid before.gid
      ≡ some (c.system_user, c.uid, c.gid))
    × (c ≡ record before { system_user = c.system_user; uid = c.uid; gid = c.gid })

pub correct_owner-IsCorrected :
    (os : Os) (before c : Config) → correct_owner os before ≡ some c → IsCorrected os before c
unfolding correct_owner
correct_owner-IsCorrected os before c e =
    elim (Option-cases (correct_system_user os before.system_user before.uid before.gid)) [
      | inl o ↦ absurd (ground (arith, e, o))
      | inr ((name, uid, gid), o) ↦ (ground (arith, e, o), ground (arith, e, o))
    ]

pub IsCorrected-correct_owner :
    (os : Os) (before c : Config) → IsCorrected os before c → correct_owner os before ≡ some c
unfolding correct_owner
IsCorrected-correct_owner os before c (e, f) = ground (arith, e, f)
