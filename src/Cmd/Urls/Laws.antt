-- ===== src/Cmd/Urls/Laws.antt =====
-- Which texts are URLs of irods, and what is read from them.
use irodsfs.Base.{
  ◌≡◌, ◌≢◌, ◌↔◌, refl, ap, sym, subst, inl, inr, ℕ, true, false, none, some, Text, codes, length,
  take, ◌==◌, [], ◌∷◌, ◌++◌, All, has_prefix, arith, Option-cases, Bool-cases,
}
use irodsfs.Base.Ints.{ℤ}
use mathlib.Core.List.{reverse, append-nil, reverse-append, reverse-reverse}
use irodsfs.Os.{Url, Os}
use irodsfs.Cmd.Words.{index, trim_left, trim}
use irodsfs.Cmd.Urls.{
  IrodsAccessUrl, is_slash, zone_of, split_path, access_of, port_of, parse_irods_url,
}

-- No byte is a slash.
abbrev pub IsName : Text → Type 0
IsName = All (λ b. is_slash b ≡ false)

-- What may follow the zone in a path.
abbrev pub IsRest : Text → Type 0
IsRest [] = Unit {0}
IsRest (b ∷ s) = b ≡ b'/'

IsName-append : (s t : Text) → IsName s → IsName t → IsName (s ++ t)
IsName-append [] t h k = k
IsName-append (b ∷ s) t (h, hs) k = (h, IsName-append s t hs k)

IsName-reverse : (s : Text) → IsName s → IsName (reverse s)
IsName-reverse [] h = h
IsName-reverse (b ∷ s) (h, hs) =
    subst IsName (sym (reverse-append (b ∷ []) s))
      (IsName-append (reverse s) (b ∷ []) (IsName-reverse s hs) (h, tt))

trim_left_name : (s : Text) → IsName s → trim_left is_slash s ≡ s
unfolding trim_left
trim_left_name [] h = refl
trim_left_name (b ∷ s) (h, hs) = ground arith

trim_name : (s : Text) → IsName s → trim is_slash s ≡ s
unfolding trim
trim_name s h =
    rw (trim_left_name s h, trim_left_name (reverse s) (IsName-reverse s h), reverse-reverse s) refl

index_name : (s rest : Text) → IsName s → index (s ++ b'/' ∷ rest) b'/' ≡ some (length s)
unfolding index
index_name [] rest h = refl
index_name (b ∷ s) rest (h, hs) = ground (arith, index_name s rest hs)

index-none : (s : Text) → IsName s → index s b'/' ≡ none
unfolding index
index-none [] h = refl
index-none (b ∷ s) (h, hs) = ground (arith, index-none s hs)

take_name : (s rest : Text) → take (length s) (s ++ rest) ≡ s
take_name [] rest = refl
take_name (b ∷ s) rest = ap (λ (t : Text). b ∷ t) (take_name s rest)

-- The zone is what stands before the next slash.
zone_of_lem : (zone rest : Text) → IsName zone → IsRest rest → zone_of (zone ++ rest) ≡ zone
unfolding zone_of
zone_of_lem zone [] h k = rw (append-nil zone) (rw (index-none zone h, zone_of) (trim_name zone h))
zone_of_lem [] (b ∷ rest) h k = rw k (rw (index_name [] rest h, zone_of) refl)
zone_of_lem (a ∷ zone) (b ∷ rest) h k = rw k (
    rw (index_name (a ∷ zone) rest h, zone_of)
      (rw (take_name (a ∷ zone) (b'/' ∷ rest)) (trim_name (a ∷ zone) h)))

-- A text is a name and a rest.
abbrev Parts : Text → Type 0
Parts s = (zone : Text) × (rest : Text) × (s ≡ zone ++ rest) × IsName zone × IsRest rest

parts : (s : Text) → Parts s
parts [] = ([], [], refl, tt, tt)
parts (b ∷ s) = elim (Bool-cases (b == b'/')) [
  | inl e ↦ ([], b ∷ s, refl, tt, ground (arith, e))
  | inr e ↦
      let (zone, rest, split, h, k) = parts s in
      (b ∷ zone, rest, ap (λ (t : Text). b ∷ t) split, (e, h), k)
]

-- A clean path of a zone and what follows in it.
pub IsZonePath : Text → Text × Text → Type 0
IsZonePath path (zone, irods_path) =
    (zone ≢ [])
    × IsName zone
    × (irods_path ≡ path)
    × ((rest : Text) × (path ≡ b'/' ∷ (zone ++ rest)) × IsRest rest)

split_path_of :
    (zone rest : Text)
    → zone ≢ []
    → IsName zone
    → IsRest rest
    → split_path (b'/' ∷ (zone ++ rest)) ≡ some (zone, b'/' ∷ (zone ++ rest))
unfolding split_path
split_path_of [] rest n h k = absurd (n refl)
split_path_of (a ∷ zone) rest n h k = ground (arith, zone_of_lem (a ∷ zone) rest h k)

split_path_sound :
    (b : ℕ) (zone rest : Text) (at : Text × Text)
    → IsName zone
    → IsRest rest
    → split_path (b ∷ (zone ++ rest)) ≡ some at
    → IsZonePath (b ∷ (zone ++ rest)) at
unfolding split_path IsZonePath
split_path_sound b [] rest at h k e = absurd (ground (arith, zone_of_lem [] rest h k))
split_path_sound b (a ∷ zone) rest at h k e =
    let z : zone_of (a ∷ (zone ++ rest)) ≡ a ∷ zone = zone_of_lem (a ∷ zone) rest h k in
    let same_zone : at.0 ≡ a ∷ zone = ground (arith, z) in
    let slash : b ≡ b'/' = ground (arith, z) in
    (
      λ n. absurd (ground (arith, n, same_zone)),
      subst IsName (sym same_zone) h,
      ground (arith, z),
      (rest, ground (arith, slash, same_zone), k),
    )

split_path_iff : (path : Text) (at : Text × Text) → split_path path ≡ some at ↔ IsZonePath path at
unfolding split_path IsZonePath
split_path_iff path (zone, irods_path) = (
  forward path,
  λ (n, h, e, tail). let (rest, f, k) = tail in rw (e, f) (split_path_of zone rest n h k),
)
  where
    forward : (p : Text) → split_path p ≡ some (zone, irods_path) → IsZonePath p (zone, irods_path)
    forward [] e = cc
    forward (b ∷ s) e =
        let (name, rest, f, h, k) = parts s in
        subst (λ (t : Text). IsZonePath (b ∷ t) (zone, irods_path)) (sym f)
          (split_path_sound b name rest (zone, irods_path) h k
            (subst (λ (t : Text). split_path (b ∷ t) ≡ some (zone, irods_path)) f e))

-- What a URL of irods says: the parts of the standard library's reading of it, with the zone first in
-- its path.
pub IsReadOf : Os → Text → IrodsAccessUrl → Type 0
IsReadOf os input_url access =
    (u : Url) × (port : ℤ) × (has_prefix input_url (codes "irods://") ≡ true)
    × (os.parse_url input_url ≡ some u)
    × (port_of os u.port ≡ some port)
    × IsZonePath (os.path_clean u.path) (access.zone, access.path)
    × (access ≡ access_of u port (access.zone, access.path))

pub IsReadOf-nonempty :
    (os : Os) (input_url : Text) (access : IrodsAccessUrl)
    → IsReadOf os input_url access
    → (access.zone ≢ []) × (access.path ≢ [])
unfolding IsReadOf IsZonePath
IsReadOf-nonempty os input_url access (u, port, a, b, c, d, e) =
    let (zone, name, path, rest) = d in
    let (tail, whole, k) = rest in (zone, λ n. absurd (ground (arith, n, path, whole)))

-- A text is read as a URL exactly when it begins with irods://, the standard library can parse it and
-- its port, and its path, cleaned, is a slash, a zone, which is a text that is not empty and has no
-- slash, and then nothing or a slash and more. The zone and that whole path are what is read, with the
-- user, the password, the host and the port of the URL.
pub parse_irods_url_iff :
    (os : Os) (input_url : Text) (access : IrodsAccessUrl)
    → parse_irods_url os input_url ≡ some access ↔ IsReadOf os input_url access
unfolding parse_irods_url IsReadOf
parse_irods_url_iff os input_url access = (
  λ e. elim (Option-cases (os.parse_url input_url)) [
    | inl o ↦ absurd (ground (arith, e, o))
    | inr (u, o) ↦ elim (Option-cases (port_of os u.port)) [
      | inl p ↦ absurd (ground (arith, e, o, p))
      | inr (port, p) ↦ elim (Option-cases (split_path (os.path_clean u.path))) [
        | inl s ↦ absurd (ground (arith, e, o, p, s))
        | inr ((zone, path), s) ↦
            let same_zone : access.zone ≡ zone = ground (arith, e, o, p, s) in
            let same_path : access.path ≡ path = ground (arith, e, o, p, s) in
            (
              u,
              port,
              ground (arith, e),
              o,
              p,
              (rw (same_zone, same_path) ((split_path_iff _ (zone, path)).0 s)),
              ground (arith, e, o, p, s),
            )
      ]
    ]
  ],
  λ (u, port, prefix, o, p, s, e). ground (
    arith,
    prefix,
    o,
    p,
    (split_path_iff (os.path_clean u.path) (access.zone, access.path)).1 s,
    e,
  ),
)
