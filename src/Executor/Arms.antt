-- ===== src/Executor/Arms.antt =====
-- `execute_aoc` and the choice between the three kinds of runs in `execute` of
-- benchmark-web/src/services/benchmark_executor.rs. What the registry sees of the run is in
-- Executor.antt.
use llm_benchmark.Common.{ℕ, Bool, String, List, [], ◌∷◌, Option, none, some, if◌then◌else◌}
use llm_benchmark.Status.{RunStatus}
use llm_benchmark.Item.{Category}
use llm_benchmark.Session.{BenchmarkSession, start, increment_completed}
use llm_benchmark.Executor.{finalize}
use llm_benchmark.Executor.Exercises.{
  RunOutcome, ok, err, Ran, Saved, emit, concat_texts, is_stopped, stopped, failed_with, unwrap_or,
  execute_single_exercise, execute_all_exercises,
}

unfoldable pub after_day : (day : String) → RunOutcome → BenchmarkSession → Ran
unfolding emit failed_with concat_texts
after_day day (ok r) s = emit (r.output ∷ []) (
    if r.success
    then record {
      session = record (increment_completed s) { status = RunStatus.completed };
      emitted = concat_texts ("AoC day " ∷ day ∷ " completed successfully\n" ∷ []) ∷ [];
      error = none;
    }
    else failed_with
        (concat_texts ("AoC day " ∷ day ∷ " failed: " ∷ unwrap_or "unknown" r.error_message ∷ []))
        none (increment_completed s))
after_day day (err short long) s = record { session = s; emitted = []; error = some long }

-- `execute_aoc`: `day` is the number that is read out of the exercise's name.
unfoldable pub execute_aoc :
    (day : String) (fired : ℕ → Bool) (outcome : ℕ → RunOutcome) → BenchmarkSession → Ran
unfolding is_stopped stopped emit after_day concat_texts
execute_aoc day fired outcome s =
    if is_stopped s (fired 0)
    then stopped s
    else emit
        (concat_texts
            ("Running AoC day " ∷ day ∷ " (user=" ∷ unwrap_or "benchmark" s.aoc_user ∷ ")\n" ∷ [])
          ∷ [])
        (after_day day (outcome 0) s)

-- What a run does not compute itself: the numbers' texts, the day of an exercise, the readings of the
-- token, and what the runner returns for a language, for all exercises of one, and for a day.
pub record World : Type 0 where
  pub show : ℕ → String
  pub day_of : Option String → String
  pub fired : ℕ → Bool
  pub outcome : ℕ → RunOutcome
  pub results : ℕ → List Saved

unfoldable pub execute_exercises : World → Option String → BenchmarkSession → Ran
execute_exercises w (some exercise) s =
    execute_single_exercise exercise w.fired w.outcome 0 s.languages s
execute_exercises w none s = execute_all_exercises w.show w.fired w.results 0 s.languages 0 s

unfoldable pub execute_category : World → Category → BenchmarkSession → Ran
unfolding execute_aoc execute_exercises
execute_category w Category.aoc2015 s = execute_aoc (w.day_of s.exercise_name) w.fired w.outcome s
execute_category w Category.polyglot s = execute_exercises w s.exercise_name s

-- `execute`: the session in the end; `fired_last` is the reading of the token in the final part.
unfoldable pub execute :
    World → (now later : ℕ) → (fired_last : Bool) → BenchmarkSession → BenchmarkSession
unfolding execute_category
execute w now later fired_last s =
    let started = start now s in
    let ran = execute_category w started.category started in
    finalize later ran.error fired_last ran.session
