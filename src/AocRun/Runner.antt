-- ===== src/AocRun/Runner.antt =====
-- `AocRunner` of crates/benchmark-core/src/aoc_runner.rs: the reading and the check of the answers, and
-- the runs of days. What the file system and the agent return is an argument.
use llm_benchmark.Common.{
  ℕ, Bool, true, false, not, String, List, [], ◌∷◌, ◌++◌, Option, none, some, if◌then◌else◌, str_eq,
  retain, ◌&&◌,
}
use llm_benchmark.Text.{trim, is_empty, str_append, lines}
use llm_benchmark.Item.{Category}
use llm_benchmark.AocRun.{AocDay, new_day, exercise_name, all_days, Solver}

-- `next().map(|l| l.trim().to_string()).unwrap_or_default()` for the first two items.
abbrev pub first_two : List String → String × String
unfolding trim
first_two [] = ("", "")
first_two (a ∷ []) = (trim a, "")
first_two (a ∷ b ∷ ls) = (trim a, trim b)

-- The part of `read_answers` after the file was read.
unfoldable pub answers_of : String → String × String
unfolding lines trim is_empty
answers_of content = first_two (retain (λ l. not (is_empty (trim l))) (lines content))

-- What a fallible call returns; the error is its text.
pub data Answer {ℓ} (A : Type ℓ) : Type ℓ where
  ok : A → Answer A
  err : String → Answer A

-- `read_answers`, of what reading the file gives.
unfoldable pub read_answers : Answer String → Answer (String × String)
unfolding answers_of str_append
read_answers (ok content) = ok (answers_of content)
read_answers (err e) = err (str_append "agent did not write answer.txt: " e)

unfoldable pub validate_answers : Solver → AocDay → String → String → Bool × Bool
unfolding is_empty
validate_answers solve d part1 part2 =
    let expected = solve d.user d.year d.day in
    let p1_ok = str_eq part1 expected.0 in
    (p1_ok, if is_empty expected.1 then p1_ok else str_eq part2 expected.1)

-- The fields of a result that the runner reads and writes.
pub record AgentResult : Type 0 where
  pub category : Category
  pub exercise : String
  pub language : String
  pub success : Bool
  pub output : String
  pub error_message : Option String

-- What a run does outside of its own state, in order. `removal_asked` is the call of `remove_dir_all`,
-- whose result the code ignores: the directory may still be there after it.
pub data Effect : Type 0 where
  gate_asked : String → Effect
  dir_created dir_filled agent_ran removal_asked : Effect

-- What the calls of one run return, an error or nothing for two of them: the creation of the directory, its filling, the agent, and the
-- reading of the answer file.
pub record Returns : Type 0 where
  pub created : Option String
  pub filled : Option String
  pub agent : Answer AgentResult
  pub answer_file : Answer String

abbrev or_empty_text : String → String
unfolding is_empty
or_empty_text t = if is_empty t then "<empty>" else t

abbrev verdict : Bool → String
verdict true = "correct"
verdict false = "incorrect"

abbrev pub answers_or_none : Answer (String × String) → String × String
answers_or_none (ok a) = a
answers_or_none (err e) = ("", "")

unfoldable pub append_all : List String → String
unfolding str_append
append_all [] = ""
append_all (t ∷ ts) = str_append t (append_all ts)

-- The result of a run whose agent returned, with the answers that were read.
unfoldable pub final_result :
    (ℕ → String) → Solver → AocDay → String × String → AgentResult → AgentResult
unfolding validate_answers append_all str_append is_empty
final_result show solve d (part1, part2) r =
    let checked = validate_answers solve d part1 part2 in
    let output = append_all (
      "part1: "
      ∷ or_empty_text part1
      ∷ " -> "
      ∷ verdict checked.0
      ∷ "\npart2: "
      ∷ or_empty_text part2
      ∷ " -> "
      ∷ verdict checked.1
      ∷ "\n"
      ∷ []) in
    record r {
      category = Category.aoc2015;
      success = checked.0 && checked.1;
      output = if is_empty r.output then output else str_append r.output output;
      error_message =
          if checked.0 && checked.1
          then none
          else some (append_all ("AoC day " ∷ show d.day ∷ ": one or both answers incorrect" ∷ []));
    }

-- `run_day`: its effects and its result. `gated` says that there is a model-load gate.
unfoldable pub run_day :
    (ℕ → String) → Solver → Bool → AocDay → String → Returns → List Effect × Answer AgentResult
unfolding final_result read_answers
run_day show solve gated d model returns =
    let asked = if gated then gate_asked model ∷ [] else [] in
    elim returns.created [
      | some e ↦ (asked, err e)
      | none ↦ elim returns.filled [
        | some e ↦ (asked ++ dir_created ∷ [], err e)
        | none ↦ elim returns.agent [
          | err e ↦ (asked ++ dir_created ∷ dir_filled ∷ agent_ran ∷ [], err e)
          | ok r ↦ (
            asked ++ dir_created ∷ dir_filled ∷ agent_ran ∷ removal_asked ∷ [],
            ok (final_result show solve d (answers_or_none (read_answers returns.answer_file)) r),
          )
        ]
      ]
    ]

-- The result that `run_all_days` keeps of a day.
unfoldable pub day_result : (ℕ → String) → ℕ → String → Answer AgentResult → AgentResult
unfolding exercise_name new_day append_all
day_result show day_num user (ok r) = r
day_result show day_num user (err e) = record {
  category = Category.aoc2015;
  exercise = exercise_name show (new_day day_num user);
  language = "aoc2015";
  success = false;
  output = "";
  error_message = some (append_all ("AoC day " ∷ show day_num ∷ " failed: " ∷ e ∷ []));
}

abbrev days_or_all : Option (List ℕ) → List ℕ
days_or_all none = all_days
days_or_all (some ds) = ds

unfoldable pub run_days :
    (ℕ → String) → Solver → Bool → String → String → (ℕ → Returns) → List ℕ → List AgentResult
unfolding run_day day_result new_day
run_days show solve gated user model returns [] = []
run_days show solve gated user model returns (n ∷ ns) =
    day_result show n user (run_day show solve gated (new_day n user) model (returns n)).1
    ∷ run_days show solve gated user model returns ns

-- `run_all_days`; what the calls of a day return is an argument.
unfoldable pub run_all_days :
    (ℕ → String)
    → Solver
    → Bool
    → String
    → String
    → (ℕ → Returns)
    → Option (List ℕ)
    → List AgentResult
unfolding run_days
run_all_days show solve gated user model returns days =
    run_days show solve gated user model returns (days_or_all days)
