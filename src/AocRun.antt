-- ===== src/AocRun.antt =====
-- The days of crates/benchmark-types/src/aoc.rs and the validator of
-- benchmark-web/src/services/aoc_validator.rs; AocRun/Runner has the runner. The solvers and the
-- decimal of a number are arguments.
pub mod Runner
pub mod Answers
pub mod Agreement
pub mod Runs
mod Tests
use llm_benchmark.Common.{
  ℕ, Bool, true, false, not, String, List, [], ◌∷◌, ◌++◌, Option, none, some, if◌then◌else◌, ltb,
  leb, ◌==◌, str_eq, retain, ◌&&◌, ◌||◌,
}
use llm_benchmark.Text.{trim, is_empty, str_append, lines}
use llm_benchmark.Item.{Category}

abbrev pub aoc_year : ℕ
aoc_year = 2015

pub record AocDay : Type 0 where
  pub day : ℕ
  pub year : ℕ
  pub user : String

-- `AocDay::new`.
unfoldable pub new_day : ℕ → String → AocDay
new_day d u = record { day = d; year = aoc_year; user = u }

-- `exercise_name`: the day in two digits.
unfoldable pub exercise_name : (ℕ → String) → AocDay → String
unfolding str_append
exercise_name show d =
    if ltb d.day 10 then str_append "day0" (show d.day) else str_append "day" (show d.day)

-- `days` of crates/benchmark-aoc2015/src/lib.rs.
abbrev pub all_days : List ℕ
all_days =
    1 ∷ 2 ∷ 3 ∷ 4 ∷ 5 ∷ 6 ∷ 7 ∷ 8 ∷ 9 ∷ 10 ∷ 11 ∷ 12 ∷ 13 ∷ 14 ∷ 15 ∷ 16 ∷ 17 ∷ 18 ∷ 19 ∷ 20 ∷ 21
    ∷ 22 ∷ 23 ∷ 24 ∷ 25 ∷ []

-- The solvers: the answers of the two parts, for a user, a year and a day.
abbrev pub Solver : Type 0
Solver = String → ℕ → ℕ → String × String

pub record ValidateRequest : Type 0 where
  pub user : String
  pub year : ℕ
  pub day : ℕ
  pub answer : String
  pub part : Option ℕ

pub record ValidateResponse : Type 0 where
  pub is_correct : Bool
  pub matched_part : Option ℕ
  pub message : String

unfoldable pub correct : (ℕ → String) → ℕ → ValidateResponse
unfolding str_append
correct show p = record {
  is_correct = true;
  matched_part = some p;
  message = str_append "correct (part " (str_append (show p) ")");
}

unfoldable pub incorrect : ValidateResponse
incorrect = record {
  is_correct = false;
  matched_part = none;
  message = "incorrect — the answer matches neither part";
}

unfoldable pub validate : (ℕ → String) → Solver → ValidateRequest → Option ValidateResponse
unfolding correct incorrect is_empty
validate show solve req =
    let parts = solve req.user req.year req.day in
    if not (req.year == aoc_year)
    then none
    else if not (leb 1 req.day && leb req.day 25)
    then none
    else if str_eq req.answer parts.0
    then some (correct show 1)
    else if str_eq req.answer parts.1 && not (is_empty parts.1)
    then some (correct show 2)
    else some incorrect
