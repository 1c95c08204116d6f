-- ===== src/AocRun/Runs.antt =====
-- The runs of crates/benchmark-core/src/aoc_runner.rs.
use llm_benchmark.Common.{
  ℕ, Bool, true, false, String, Option, none, some, ◌≡◌, refl, ap, str_eq, str_eq_self, any,
}
use llm_benchmark.Text.{trim, is_empty, str_append}
use llm_benchmark.AocRun.{AocDay, Solver}
use llm_benchmark.AocRun.Runner.{
  Answer, ok, err, AgentResult, Effect, dir_created, removal_asked, Returns, run_day, final_result,
  answers_or_none, validate_answers,
}
use llm_benchmark.AocRun.Answers.{is_one_line, read_answers-written}

abbrev pub is_removal : Effect → Bool
is_removal removal_asked = true
is_removal _ = false

abbrev pub is_creation : Effect → Bool
is_creation dir_created = true
is_creation _ = false

abbrev pub is_ok {ℓ} : {A : Type ℓ} → Answer A → Bool
is_ok (ok a) = true
is_ok (err e) = false

module _ (show : ℕ → String) (solve : Solver) (d : AocDay) (model : String) where
  removes_dir :
      (gated : Bool) (c f : Option String) (a : Answer AgentResult) (file : Answer String)
      → let r : Returns = record { created = c; filled = f; agent = a; answer_file = file } in
        any is_removal (run_day show solve gated d model r).0
        ≡ is_ok (run_day show solve gated d model r).1
  unfolding run_day
  removes_dir true (some e) f a file = refl
  removes_dir true none (some e) a file = refl
  removes_dir true none none (err e) file = refl
  removes_dir true none none (ok r) file = refl
  removes_dir false (some e) f a file = refl
  removes_dir false none (some e) a file = refl
  removes_dir false none none (err e) file = refl
  removes_dir false none none (ok r) file = refl

-- The removal of the work directory is asked for exactly if the run returns a result: a run that fails
-- once it has created the directory leaves it.
pub run_day_removes_dir :
    (show : ℕ → String) (solve : Solver) (gated : Bool) (d : AocDay) (model : String) (r : Returns)
    → any is_removal (run_day show solve gated d model r).0
      ≡ is_ok (run_day show solve gated d model r).1
run_day_removes_dir show solve gated d model r =
    removes_dir show solve d model gated r.created r.filled r.agent r.answer_file

final_result-solved :
    (show : ℕ → String) (solve : Solver) (d : AocDay) (r : AgentResult) (a b : String)
    → solve d.user d.year d.day ≡ (a, b)
    → is_empty b ≡ false
    → ((final_result show solve d (a, b) r).success ≡ true)
      × ((final_result show solve d (a, b) r).error_message ≡ none)
unfolding final_result validate_answers
final_result-solved show solve d r a b solved eb =
    let first : str_eq a (solve d.user d.year d.day).0 ≡ true = rw solved (str_eq_self a) in
    let second : str_eq b (solve d.user d.year d.day).1 ≡ true = rw solved (str_eq_self b) in
    let some_second : is_empty (solve d.user d.year d.day).1 ≡ false = rw solved eb in
    (rw (some_second, first, second) refl, rw (some_second, first, second) refl)

-- A run whose agent returns and has written the two answers of the solver, a line each as the prompt
-- asks, is a success without an error message, if the answers are lines that are not blank, with no
-- blanks at their ends.
pub run_day_solved :
    (show : ℕ → String) (solve : Solver) (gated : Bool) (d : AocDay) (model : String)
    (r : AgentResult) (a b : String)
    → solve d.user d.year d.day ≡ (a, b)
    → is_one_line a ≡ true
    → is_one_line b ≡ true
    → trim a ≡ a
    → trim b ≡ b
    → is_empty a ≡ false
    → is_empty b ≡ false
    → let returns : Returns = record {
      created = none;
      filled = none;
      agent = ok r;
      answer_file = ok (str_append a (str_append "\n" (str_append b (str_append "\n" ""))));
    } in
      (result : AgentResult) × ((run_day show solve gated d model returns).1 ≡ ok result)
      × (result.success ≡ true)
      × (result.error_message ≡ none)
unfolding run_day
run_day_solved show solve gated d model r a b solved la lb ta tb ea eb =
    let result = final_result show solve d (a, b) r in
    let accepted = final_result-solved show solve d r a b solved eb in
    (
      result,
      ap (λ x. ok (final_result show solve d (answers_or_none x) r))
          (read_answers-written a b la lb ta tb ea eb),
      accepted.0,
      accepted.1,
    )
