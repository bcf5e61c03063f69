-- ===== src/Locks/Ranges.antt =====
-- Byte ranges of filehandle_locallock.go: both ends are included.
use irodsfs.Base.{ℕ, ◌≤◌, ◌≡◌, ◌↔◌, ◌⊎◌, true, arith, max}
use irodsfs.Locks.{overlap_range, combine_range}

abbrev pub InRange : ℕ → ℕ → ℕ → Type 0
InRange s e x = (s ≤ x) × (x ≤ e)

-- `overlapRange` tells of two proper ranges whether some byte lies in both.
pub overlap_range_iff :
    (s1 e1 s2 e2 : ℕ)
    → s1 ≤ e1
    → s2 ≤ e2
    → overlap_range s1 e1 s2 e2 ≡ true ↔ ((x : ℕ) × InRange s1 e1 x × InRange s2 e2 x)
unfolding overlap_range
overlap_range_iff s1 e1 s2 e2 p q =
    (λ h. (max s1 s2, ground arith, ground arith), λ (x, a, b). ground arith)

-- Of two proper ranges that overlap, `combineRange` returns the range of the bytes that lie in one
-- or the other, and of no more.
pub combine_range_iff :
    (s1 e1 s2 e2 x : ℕ)
    → s1 ≤ e1
    → s2 ≤ e2
    → overlap_range s1 e1 s2 e2 ≡ true
    → let (s, e) = combine_range s1 e1 s2 e2 in InRange s e x ↔ (InRange s1 e1 x ⊎ InRange s2 e2 x)
unfolding overlap_range combine_range
combine_range_iff s1 e1 s2 e2 x p q h = (λ r. ground arith, λ r. ground arith)
