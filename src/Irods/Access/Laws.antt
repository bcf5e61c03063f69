-- ===== src/Irods/Access/Laws.antt =====
-- What `IRODSGetACL` and `IRODSGetOpenFlags` of irods.go decide.
use irodsfs.Base.{
  ◌≡◌, refl, sym, ◌∙◌, ◌↔◌, ◌⊎◌, inl, inr, Bool, true, false, List, [], ◌∷◌, same_iff, arith,
}
use irodsfs.Base.Dict.{contains}
use irodsfs.Env.{
  External, Settings, Sys, Entry, Access, AccessLevel, administer_object, owner, modify_object,
  create_object, rods_user, rods_group, Reply-cases, replied,
}
use irodsfs.Irods.Access.{irods_get_permission, acl_loop, list_acls, irods_get_acl}

-- The level lets its user write: create, modify, own or administer.
abbrev pub Writes : AccessLevel → Type 0
Writes level =
    (level ≡ create_object)
    ⊎ (level ≡ modify_object)
    ⊎ (level ≡ owner)
    ⊎ (level ≡ administer_object)

-- The access is the client user's or that of one of the user's groups, and lets write.
abbrev pub LetsWrite : Settings → Access → Type 0
LetsWrite fs a =
    ((a.user_type ≡ rods_user) × (a.user_name ≡ fs.client_user)
      ⊎ (a.user_type ≡ rods_group) × (contains a.user_name fs.user_groups ≡ true))
    × Writes a.access_level

-- Some access of the list lets the client user write.
abbrev pub AnyWrite : Settings → List Access → Type 0
AnyWrite fs [] = ⊥
AnyWrite fs (a ∷ l) = LetsWrite fs a ⊎ AnyWrite fs l

acl_loop-two :
    (fs : Settings) (l : List Access)
    → (acl_loop fs l 0o500 ≡ 0o500) ⊎ (acl_loop fs l 0o500 ≡ 0o700)
unfolding acl_loop irods_get_permission
acl_loop-two fs [] = inl refl
acl_loop-two fs (a ∷ l) = ground (arith, acl_loop-two fs l)

acl_loop_step :
    (fs : Settings) (a : Access) (l : List Access)
    → LetsWrite fs a ⊎ (acl_loop fs (a ∷ l) 0o500 ≡ acl_loop fs l 0o500)
unfolding acl_loop irods_get_permission
acl_loop_step fs a l = ground (arith, same_iff a.user_name fs.client_user)

acl_loop_write :
    (fs : Settings) (a : Access) (l : List Access)
    → LetsWrite fs a
    → acl_loop fs (a ∷ l) 0o500 ≡ 0o700
unfolding acl_loop irods_get_permission
acl_loop_write fs a l w = ground (arith, same_iff a.user_name fs.client_user)

acl_loop_iff : (fs : Settings) (l : List Access) → acl_loop fs l 0o500 ≡ 0o700 ↔ AnyWrite fs l
unfolding acl_loop irods_get_permission
acl_loop_iff fs [] = (λ e. omega arith, λ e. absurd e)
acl_loop_iff fs (a ∷ l) = (
  λ e. elim (acl_loop_step fs a l) [
    | inl w ↦ inl w
    | inr q ↦ inr ((acl_loop_iff fs l).0 (sym q ∙ e))
  ],
  λ e. elim e [
    | inl w ↦ acl_loop_write fs a l w
    | inr r ↦ let ih = (acl_loop_iff fs l).1 r in ground arith
  ],
)

-- With `readonly`, `IRODSGetACL` allows reading only. Otherwise it allows writing exactly when the
-- permission check is off, the client user owns the entry, or the server lists an access that lets
-- the user or one of the user's groups write; in all other cases, a failed listing too, reading only.
pub irods_get_acl_lem :
    (E : External) (fs : Settings) (entry : Entry) (readonly : Bool) (s : Sys E)
    → let mode = (irods_get_acl E fs entry readonly s).0 in
      ((mode ≡ 0o500) ⊎ (mode ≡ 0o700))
      × (mode ≡ 0o700 ↔ (
          (readonly ≡ false)
          × ((fs.no_permission_check ≡ true)
              ⊎ (entry.owner ≡ fs.client_user)
              ⊎ ((l : List Access) × ((list_acls E fs entry s).0 ≡ replied l) × AnyWrite fs l))))
unfolding irods_get_acl
irods_get_acl_lem E fs entry readonly s =
    let own = same_iff entry.owner fs.client_user in
    elim (Reply-cases (list_acls E fs entry s).0) [
      | inl (x, e) ↦ rw e (ground (arith, own, e))
      | inr (l, e) ↦ rw e (ground (arith, own, e, acl_loop-two fs l, acl_loop_iff fs l))
    ]
