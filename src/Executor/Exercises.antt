-- ===== src/Executor/Exercises.antt =====
-- The exercises of a run: `execute_single_exercise`, `execute_all_exercises`, `execute_aoc` and
-- `save_with_reporting` of benchmark-web/src/services/benchmark_executor.rs, and the choice between
-- them in `execute`. What the runner returns and what the reading of the token number `i` says are
-- arguments; `show` is the decimal of a number. Counts stay below 2 ^ 31, but for their sum.
use llm_benchmark.Common.{
  ℕ, suc, ◌+◌, ◌-◌, ◌^◌, ◌%◌, Bool, true, false, String, List, [], ◌∷◌, ◌++◌, Option, none, some,
  if◌then◌else◌, ltb, length, retain, ◌||◌,
}
use llm_benchmark.Text.{str_append}
use llm_benchmark.Status.{RunStatus}
use llm_benchmark.Session.{
  BenchmarkSession, ℤ, pos, negsuc, increment_completed, set_total_exercises, set_error_message,
}

-- The fields of a result that a run looks at.
pub record AgentResult : Type 0 where
  pub exercise_name : String
  pub output : String
  pub success : Bool
  pub error_message : Option String

-- What the runner returns; an error has a short text and the long one of `{:?}`.
pub data RunOutcome : Type 0 where
  ok : AgentResult → RunOutcome
  err : (short long : String) → RunOutcome

-- The session that a part of a run leaves, what it emitted, and the error that it returned.
pub record Ran : Type 0 where
  pub session : BenchmarkSession
  pub emitted : List String
  pub error : Option String

unfoldable pub emit : List String → Ran → Ran
emit messages r = record r { emitted = messages ++ r.emitted }

unfoldable pub concat_texts : List String → String
unfolding str_append
concat_texts [] = ""
concat_texts (t ∷ ts) = str_append t (concat_texts ts)

unfoldable pub is_cancelled_status : RunStatus → Bool
is_cancelled_status RunStatus.cancelled = true
is_cancelled_status _ = false

unfoldable pub is_failed_status : RunStatus → Bool
is_failed_status RunStatus.failed = true
is_failed_status _ = false

-- The check before each language, and what follows if it says stop.
unfoldable pub is_stopped : BenchmarkSession → Bool → Bool
unfolding is_cancelled_status
is_stopped s fired = is_cancelled_status s.status || fired

unfoldable pub stopped : BenchmarkSession → Ran
stopped s = record { session = s; emitted = "Benchmark cancelled\n" ∷ []; error = none }

unfoldable pub failed_with : String → Option String → BenchmarkSession → Ran
failed_with message error s = record {
  session = set_error_message message (record s { status = RunStatus.failed });
  emitted = message ∷ [];
  error = error;
}

abbrev pub unwrap_or : String → Option String → String
unwrap_or t none = t
unwrap_or t (some u) = u

-- What follows the run of one language; `rest` is the loop from the next one on.
unfoldable pub after_run :
    (exercise language : String) → RunOutcome → (BenchmarkSession → Ran) → BenchmarkSession → Ran
unfolding emit failed_with concat_texts
after_run exercise language (ok r) rest s = emit (r.output ∷ []) (
    if r.success
    then rest (increment_completed s)
    else failed_with
        (concat_texts (
          "Exercise failed for language "
          ∷ language
          ∷ ": "
          ∷ unwrap_or "Unknown error" r.error_message
          ∷ []))
        none (increment_completed s))
after_run exercise language (err short long) rest s =
    failed_with
      (concat_texts
        ("Exercise execution error for " ∷ exercise ∷ "/" ∷ language ∷ ": " ∷ short ∷ []))
      (some long) s

-- `execute_single_exercise` from its language number `i` on.
unfoldable pub execute_single_exercise :
    (exercise : String) (fired : ℕ → Bool) (outcome : ℕ → RunOutcome)
    → ℕ
    → List String
    → BenchmarkSession
    → Ran
unfolding is_stopped stopped after_run emit concat_texts
execute_single_exercise exercise fired outcome i [] s = record {
  session = record s { status = RunStatus.completed };
  emitted = "All exercises completed successfully!\n" ∷ [];
  error = none;
}
execute_single_exercise exercise fired outcome i (language ∷ languages) s =
    let rest = execute_single_exercise exercise fired outcome (suc i) languages in
    if is_stopped s (fired i)
    then stopped s
    else emit
        (concat_texts ("Running exercise: " ∷ exercise ∷ " for language: " ∷ language ∷ "\n" ∷ [])
          ∷ [])
        (after_run exercise language (outcome i) rest s)

-- A result with the error of its saving, if there was one.
abbrev pub Saved : Type 0
Saved = AgentResult × Option String

-- The warnings of `save_with_reporting`, one for each failure.
unfoldable pub save_warnings : List Saved → List String
unfolding concat_texts
save_warnings [] = []
save_warnings ((r, none) ∷ rest) = save_warnings rest
save_warnings ((r, some e) ∷ rest) =
    concat_texts ("WARNING: failed to persist result for " ∷ r.exercise_name ∷ ": " ∷ e ∷ "\n" ∷ [])
    ∷ save_warnings rest

-- The session after `save_with_reporting`.
unfoldable pub save_with_reporting : (show : ℕ → String) → ℕ → BenchmarkSession → BenchmarkSession
unfolding concat_texts
save_with_reporting show failures s =
    if ltb 0 failures
    then set_error_message (concat_texts ("Failed to persist " ∷ show failures ∷ " result(s)" ∷ []))
        s
    else s

abbrev pub count_successful : List Saved → ℕ
count_successful saved = length (retain (λ r. r.0.success) saved)

-- `as i32`, of a sum that wraps.
unfoldable pub to_i32 : ℕ → ℤ
to_i32 n = let w = n % 2 ^ 32 in if ltb w (2 ^ 31) then pos w else negsuc (2 ^ 32 - 1 - w)

-- The end of `execute_all_exercises`.
unfoldable pub close_all : ℕ → BenchmarkSession → Ran
unfolding to_i32 is_failed_status
close_all total s =
    if is_failed_status s.status
    then record {
      session = set_error_message "Some exercises failed" (set_total_exercises (to_i32 total) s);
      emitted = [];
      error = none;
    }
    else record {
      session = record (set_total_exercises (to_i32 total) s) { status = RunStatus.completed };
      emitted = "All exercises in all languages completed successfully!\n" ∷ [];
      error = none;
    }

-- The session after the results of one language, and what is emitted for them.
unfoldable pub after_results :
    (show : ℕ → String) → List Saved → BenchmarkSession → BenchmarkSession
unfolding save_with_reporting save_warnings
after_results show saved s = save_with_reporting show (length (save_warnings saved)) (
    if ltb 0 (length saved - count_successful saved)
    then record s { status = RunStatus.failed }
    else s)

unfoldable pub result_messages : (show : ℕ → String) → String → List Saved → List String
unfolding save_warnings concat_texts
result_messages show language saved =
    let failed = length saved - count_successful saved in
    let failures = length (save_warnings saved) in
    (if ltb 0 failed
        then concat_texts (
            show failed
            ∷ " exercises failed for language "
            ∷ language
            ∷ " out of "
            ∷ show (length saved)
            ∷ [])
        else concat_texts
            ("All exercises completed successfully for language: " ∷ language ∷ "\n" ∷ []))
      ∷ save_warnings saved
    ++ (if ltb 0 failures
        then concat_texts
            ("ERROR: " ∷ show failures ∷ " result(s) could not be persisted to disk\n" ∷ [])
          ∷ []
        else [])

-- `execute_all_exercises` from its language number `i` on, with the results counted so far.
unfoldable pub execute_all_exercises :
    (show : ℕ → String) (fired : ℕ → Bool) (results : ℕ → List Saved)
    → ℕ
    → List String
    → ℕ
    → BenchmarkSession
    → Ran
unfolding is_stopped stopped emit close_all after_results result_messages concat_texts
execute_all_exercises show fired results i [] total s = close_all total s
execute_all_exercises show fired results i (language ∷ languages) total s =
    let rest = execute_all_exercises show fired results (suc i) languages in
    if is_stopped s (fired i)
    then stopped s
    else emit
        (concat_texts ("Running all exercises for language: " ∷ language ∷ "\n" ∷ [])
          ∷ result_messages show language (results i))
        (rest (total + length (results i)) (after_results show (results i) s))
