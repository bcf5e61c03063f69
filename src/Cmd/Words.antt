-- ===== src/Cmd/Words.antt =====
-- What cmd/ calls of package strings, on bytes: `Index`, `Trim`, `TrimSpace` and `Split`.
use irodsfs.Base.{ℕ, suc, Bool, ◌||◌, Option, none, some, List, Text, ◌==◌, [], ◌∷◌, if◌then◌else◌}
use mathlib.Core.List.{reverse}

-- Of one byte; `none` is -1.
unfoldable pub index : Text → ℕ → Option ℕ
index [] c = none
index (b ∷ s) c =
    if b == c then some 0 else elim (index s c) [ none ↦ none | some i ↦ some (suc i) ]

-- The bytes to trim are those that the test holds of.
unfoldable pub trim_left : (ℕ → Bool) → Text → Text
trim_left p [] = []
trim_left p (b ∷ s) = if p b then trim_left p s else b ∷ s

unfoldable pub trim : (ℕ → Bool) → Text → Text
unfolding trim_left
trim p s = reverse (trim_left p (reverse (trim_left p s)))

-- The spaces among the ASCII characters.
abbrev pub is_space : ℕ → Bool
is_space c = c == 0x20 || c == 9 || c == 10 || c == 11 || c == 12 || c == 13

unfoldable pub trim_space : Text → Text
unfolding trim
trim_space s = trim is_space s

abbrev put_first : ℕ → List Text → List Text
put_first b [] = (b ∷ []) ∷ []
put_first b (s ∷ rest) = (b ∷ s) ∷ rest

-- At one byte.
unfoldable pub split : Text → ℕ → List Text
split [] c = [] ∷ []
split (b ∷ s) c = let rest = split s c in if b == c then [] ∷ rest else put_first b rest
