-- ===== src/Tests/Maps.antt =====
-- The keys of an association list are a range over it.
use irodsfs.Base.{◌≡◌, ◌↔◌, refl, inl, inr, true, some, List, [], ◌∷◌, Text, same, Bool-cases}
use irodsfs.Base.Dict.{Dict, lookup, contains, NodupKeys, IsRange}

module _ {ℓ} {V : Type ℓ} where
  abbrev pub keys : Dict V → List Text
  keys [] = []
  keys ((k, v) ∷ m) = k ∷ keys m

  keys-covers :
      (m : Dict V) (k : Text) → contains k (keys m) ≡ true ↔ ((v : V) × (lookup k m ≡ some v))
  unfolding contains lookup
  keys-covers [] k = (λ e. cc, λ (v, e). cc)
  keys-covers ((j, w) ∷ m) k =
      let (to, from) = keys-covers m k in
      elim (Bool-cases (same j k)) [
        | inl s ↦ rw s (λ e. (w, refl), λ e. refl)
        | inr s ↦ rw s (to, from)
      ]

  pub keys-IsRange : (m : Dict V) → NodupKeys (keys m) → IsRange (keys m) m
  keys-IsRange m n = record { once = n; covers = keys-covers m }
