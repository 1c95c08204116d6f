-- ===== src/AocRun/Agreement.antt =====
-- The validator of benchmark-web/src/services/aoc_validator.rs and the check of the runner in
-- crates/benchmark-core/src/aoc_runner.rs on the same answers.
use llm_benchmark.Common.{
  ℕ, Bool, true, false, String, Option, none, some, leb, ◌==◌, ◌≡◌, refl, str_eq, ◌&&◌, Bool-cases,
  inl, inr,
}
use llm_benchmark.Text.{is_empty}
use llm_benchmark.AocRun.{
  aoc_year, new_day, Solver, ValidateRequest, ValidateResponse, correct, incorrect, validate,
}
use llm_benchmark.AocRun.Runner.{validate_answers}

abbrev pub request : String → ℕ → String → Option ℕ → ValidateRequest
request user d answer part = record {
  user = user;
  year = aoc_year;
  day = d;
  answer = answer;
  part = part;
}

abbrev part_of : Option ValidateResponse → Option ℕ
part_of none = none
part_of (some r) = r.matched_part

-- The part that a response says the answer matches.
abbrev is_number : ℕ → Option ℕ → Bool
is_number p none = false
is_number p (some q) = q == p

abbrev pub says : ℕ → Option ValidateResponse → Bool
says p none = false
says p (some r) = is_number p r.matched_part

module _ (show : ℕ → String) (solve : Solver) (user : String) (d : ℕ) where
  -- In range the validator compares with the first part, then with the second.
  validate-first :
      (answer : String) (part : Option ℕ)
      → (leb 1 d && leb d 25) ≡ true
      → str_eq answer (solve user aoc_year d).0 ≡ true
      → validate show solve (request user d answer part) ≡ some (correct show 1)
  unfolding validate
  validate-first answer part h e = rw (h, e) refl

  validate-second :
      (answer : String) (part : Option ℕ)
      → (leb 1 d && leb d 25) ≡ true
      → str_eq answer (solve user aoc_year d).0 ≡ false
      → is_empty (solve user aoc_year d).1 ≡ false
      → str_eq answer (solve user aoc_year d).1 ≡ true
      → validate show solve (request user d answer part) ≡ some (correct show 2)
  unfolding validate
  validate-second answer part h e n q = rw (h, e, n, q) refl

  validate-neither :
      (answer : String) (part : Option ℕ)
      → (leb 1 d && leb d 25) ≡ true
      → str_eq answer (solve user aoc_year d).0 ≡ false
      → str_eq answer (solve user aoc_year d).1 ≡ false
      → validate show solve (request user d answer part) ≡ some incorrect
  unfolding validate
  validate-neither answer part h e q = rw (h, e, q) refl

  -- The validator says part 1 exactly of the answers that the runner takes for part 1. If the day has
  -- a second part, it says part 2 exactly of those that the runner takes for part 2, but for an answer
  -- that is that of part 1 as well.
  pub validator_runner_agree :
      (a b : String) (part : Option ℕ)
      → (leb 1 d && leb d 25) ≡ true
      → is_empty (solve user aoc_year d).1 ≡ false
      → str_eq b (solve user aoc_year d).0 ≡ false
      → (says 1 (validate show solve (request user d a part))
          ≡ (validate_answers solve (new_day d user) a b).0)
        × (says 2 (validate show solve (request user d b part))
            ≡ (validate_answers solve (new_day d user) a b).1)
  unfolding validate_answers new_day correct incorrect
  validator_runner_agree a b part h n other = (
    elim (Bool-cases (str_eq a (solve user aoc_year d).0)) [
      | inl e ↦ rw (validate-first a part h e, e) refl
      | inr e ↦ elim (Bool-cases (str_eq a (solve user aoc_year d).1)) [
        | inl f ↦ rw (validate-second a part h e n f, e) refl
        | inr f ↦ rw (validate-neither a part h e f, e) refl
      ]
    ],
    elim (Bool-cases (str_eq b (solve user aoc_year d).1)) [
      | inl f ↦ rw (validate-second b part h other n f, n, f) refl
      | inr f ↦ rw (validate-neither b part h other f, n, f) refl
    ],
  )
