-- ===== src/Base/Dict.antt =====
-- Go maps with string keys as association lists. The order of the list means nothing: a `range`
-- over a map takes the order of its keys as an argument (`IsRange`).
use mathlib.Core.Path.{◌≡◌, refl}
use mathlib.Core.Logic.{◌↔◌}
use mathlib.Core.Bool.{Bool, true, false, ◌||◌}
use mathlib.Core.Option.{Option, none, some}
use mathlib.Core.List.{List, [], ◌∷◌, ◌++◌}
use native.Mathlib.Omega.{arith}
use irodsfs.Base.Tests.{if◌then◌else◌}
use irodsfs.Base.Texts.{Text, same, same_iff, same_refl}

abbrev pub Dict {ℓ} : Type ℓ → Type ℓ
Dict V = List (Text × V)

module _ {ℓ} {V : Type ℓ} where
  -- `m[k]`, with `ok`
  unfoldable pub lookup : Text → Dict V → Option V
  lookup k [] = none
  lookup k ((j, v) ∷ m) = if same j k then some v else lookup k m

  -- `m[k] = v`
  unfoldable pub insert : Text → V → Dict V → Dict V
  insert k v [] = (k, v) ∷ []
  insert k v ((j, w) ∷ m) = if same j k then (j, v) ∷ m else (j, w) ∷ insert k v m

  -- `delete(m, k)`
  unfoldable pub delete : Text → Dict V → Dict V
  delete k [] = []
  delete k ((j, w) ∷ m) = let rest = delete k m in if same j k then rest else (j, w) ∷ rest

  pub lookup-insert :
      (k j : Text) (v : V) (m : Dict V)
      → lookup j (insert k v m) ≡ (if same k j then some v else lookup j m)
  unfolding lookup insert
  lookup-insert k j v [] = refl
  lookup-insert k j v ((i, w) ∷ m) =
      ground (arith, same_iff k j, same_iff i k, same_iff i j, lookup-insert k j v m)

  pub lookup-delete :
      (k j : Text) (m : Dict V) → lookup j (delete k m) ≡ (if same k j then none else lookup j m)
  unfolding lookup delete
  lookup-delete k j [] = ground arith
  lookup-delete k j ((i, w) ∷ m) =
      ground (arith, same_iff k j, same_iff i k, same_iff i j, lookup-delete k j m)

  pub lookup-insert_self : (k : Text) (v : V) (m : Dict V) → lookup k (insert k v m) ≡ some v
  lookup-insert_self k v m = rw (lookup-insert k k v m, same_refl k)

  pub lookup-delete_self : (k : Text) (m : Dict V) → lookup k (delete k m) ≡ none
  lookup-delete_self k m = rw (lookup-delete k k m, same_refl k)

unfoldable pub contains : Text → List Text → Bool
contains k [] = false
contains k (j ∷ ks) = same j k || contains k ks

pub contains-append :
    (k : Text) (js ks : List Text) → contains k (js ++ ks) ≡ (contains k js || contains k ks)
unfolding contains
contains-append k [] ks = refl
contains-append k (j ∷ js) ks = ground (arith, contains-append k js ks)

abbrev pub NodupKeys : List Text → Type 0
NodupKeys [] = Unit {0}
NodupKeys (k ∷ ks) = (contains k ks ≡ false) × NodupKeys ks

-- The keys that one `range` over the map produces, in some order: each key of the map once.
pub record IsRange {ℓ} {V : Type ℓ} (order : List Text) (m : Dict V) : Type ℓ where
  pub once : NodupKeys order
  pub covers : (k : Text) → contains k order ≡ true ↔ ((v : V) × (lookup k m ≡ some v))
