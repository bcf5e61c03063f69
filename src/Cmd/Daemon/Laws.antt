-- ===== src/Cmd/Daemon/Laws.antt =====
-- When the parent's waiting ends, and how.
use irodsfs.Base.{
  ◌≡◌, refl, ◌⊎◌, inl, inr, ℕ, zero, suc, ◌<◌, ◌∙◌, same_iff, All, Bool, true, false, not, none,
  some, List, Text, same, length, [], ◌∷◌, ◌++◌, arith, Bool-cases,
}
use irodsfs.Cmd.Words.{trim_space}
use irodsfs.Cmd.Daemon.{finish_success, finish_error, report_child_process, receive}

-- A line that is no report.
abbrev pub NoReport : Text → Type 0
NoReport line =
    (same (trim_space line) finish_success ≡ false) × (same (trim_space line) finish_error ≡ false)

-- The line is the report of the answer.
abbrev pub IsReport : Bool → Text → Type 0
IsReport failed line = trim_space line ≡ report_child_process (not failed)

-- What the parent has to answer: what the first report says, or failure where there is none and the
-- output ends by an error.
pub data IsVerdict (fails : Bool) : List Text → Bool → Type 0 where
  reported :
      {failed : Bool} {line : Text} (after : List Text)
      → IsReport failed line
      → IsVerdict fails (line ∷ after) failed
  later :
      {failed : Bool} {line : Text} {lines : List Text}
      → NoReport line
      → IsVerdict fails lines failed
      → IsVerdict fails (line ∷ lines) failed
  broken : fails ≡ true → IsVerdict fails [] true

-- The loop ends by an answer, or takes whatever rounds it is given.
pub Answers : List Text → Bool → Type 0
Answers lines fails =
    (failed : Bool) × IsVerdict fails lines failed
    × ((rounds : ℕ) → length lines < rounds → receive rounds lines fails ≡ some failed)

pub WaitsForever : List Text → Bool → Type 0
WaitsForever lines fails =
    All NoReport lines × (fails ≡ false) × ((rounds : ℕ) → receive rounds lines fails ≡ none)

broken_answers : (rounds : ℕ) → 0 < rounds → receive rounds [] true ≡ some true
unfolding receive
broken_answers zero h = absurd (omega arith)
broken_answers (suc rounds) h = refl

closed_waits : (rounds : ℕ) → receive rounds [] false ≡ none
unfolding receive
closed_waits zero = refl
closed_waits (suc rounds) = closed_waits rounds

report_answers :
    (failed : Bool) (line : Text) (lines : List Text) (fails : Bool) (rounds : ℕ)
    → IsReport failed line
    → 0 < rounds
    → receive rounds (line ∷ lines) fails ≡ some failed
unfolding receive same
report_answers failed line lines fails zero e h = absurd (omega arith)
report_answers true line lines fails (suc rounds) e h = rw e refl
report_answers false line lines fails (suc rounds) e h = rw e refl

skip_line :
    (line : Text) (lines : List Text) (fails : Bool) (rounds : ℕ)
    → NoReport line
    → receive (suc rounds) (line ∷ lines) fails ≡ receive rounds lines fails
unfolding receive
skip_line line lines fails rounds (a, b) = rw (a, b, receive) refl

later_answers :
    (line : Text) (lines : List Text) (fails : Bool) (failed : Bool)
    → NoReport line
    → ((rounds : ℕ) → length lines < rounds → receive rounds lines fails ≡ some failed)
    → (rounds : ℕ) → suc (length lines) < rounds
    → receive rounds (line ∷ lines) fails ≡ some failed
later_answers line lines fails failed n a zero h = absurd (omega arith)
later_answers line lines fails failed n a (suc rounds) h =
    skip_line line lines fails rounds n ∙ a rounds (omega arith)

later_waits :
    (line : Text) (lines : List Text) (fails : Bool)
    → NoReport line
    → ((rounds : ℕ) → receive rounds lines fails ≡ none)
    → (rounds : ℕ) → receive rounds (line ∷ lines) fails ≡ none
unfolding receive
later_waits line lines fails n a zero = refl
later_waits line lines fails n a (suc rounds) = skip_line line lines fails rounds n ∙ a rounds

-- The parent's loop ends exactly when it has to answer: with one round more than the child writes lines
-- it answers what the first report says, or failure if there is no report and the output ends by an
-- error. If the output ends without a report and without an error, as that of a child that dies, no
-- number of rounds is enough: the parent waits for ever.
pub receive_ends :
    (lines : List Text) (fails : Bool) → Answers lines fails ⊎ WaitsForever lines fails
unfolding Answers WaitsForever
receive_ends [] true = inl (true, broken refl, broken_answers)
receive_ends [] false = inr (tt, refl, closed_waits)
receive_ends (line ∷ lines) fails = elim (Bool-cases (same (trim_space line) finish_success)) [
  | inl s ↦
      let report : IsReport false line = (same_iff (trim_space line) finish_success).0 s in
      inl (
        false,
        reported lines report,
        λ rounds h. report_answers false line lines fails rounds report (omega arith),
      )
  | inr s ↦ elim (Bool-cases (same (trim_space line) finish_error)) [
    | inl f ↦
        let report : IsReport true line = (same_iff (trim_space line) finish_error).0 f in
        inl (
          true,
          reported lines report,
          λ rounds h. report_answers true line lines fails rounds report (omega arith),
        )
    | inr f ↦ elim (receive_ends lines fails) [
      | inl (failed, v, a) ↦
          inl (failed, later (s, f) v, later_answers line lines fails failed (s, f) a)
      | inr (n, e, a) ↦ inr (((s, f), n), e, later_waits line lines fails (s, f) a)
    ]
  ]
]

-- Lines before the report and after it do not matter.
pub report_among :
    (noise after : List Text) (line : Text) (fails failed : Bool) (rounds : ℕ)
    → All NoReport noise
    → IsReport failed line
    → length noise < rounds
    → receive rounds (noise ++ line ∷ after) fails ≡ some failed
report_among [] after line fails failed rounds n e h =
    report_answers failed line after fails rounds e h
report_among (x ∷ noise) after line fails failed zero n e h = absurd (omega arith)
report_among (x ∷ noise) after line fails failed (suc rounds) (m, n) e h =
    skip_line x (noise ++ line ∷ after) fails rounds m
    ∙ report_among noise after line fails failed rounds n e (omega arith)
