-- ===== src/Executor/Outcome.antt =====
-- The state that `execute` of benchmark-web/src/services/benchmark_executor.rs reports.
use llm_benchmark.Common.{
  ℕ, Bool, true, false, ◌≡◌, refl, ap, ◌∙◌, inl, inr, Option, none, some, String, if◌then◌else◌,
  Bool-cases, ◌&&◌,
}
use llm_benchmark.Status.{RunStatus}
use llm_benchmark.Item.{Category}
use llm_benchmark.Session.{BenchmarkSession, start}
use llm_benchmark.Executor.{finalize_status}
use llm_benchmark.Executor.Exercises.{is_cancelled_status}
use llm_benchmark.Executor.Arms.{World, execute_category, execute_exercises, execute}
use llm_benchmark.Executor.Reported.{
  succeeds, good_or_failed, unfired_status, single_status, aoc_status, all_results_succeed,
}
use llm_benchmark.Executor.Failures.{ok_so_far, all_status}

category_status :
    (w : World)
    → ((i : ℕ) → w.fired i ≡ false)
    → (c : Category) (e : Option String) (s : BenchmarkSession) → s.exercise_name ≡ e
    → s.status ≡ RunStatus.running
    → unfired_status (execute_category w c s) ≡ good_or_failed (succeeds w c e s.languages)
unfolding execute_category execute_exercises succeeds is_cancelled_status
category_status w quiet Category.aoc2015 e s same h =
    aoc_status w.fired quiet (w.day_of s.exercise_name) w.outcome s (ap is_cancelled_status h)
category_status w quiet Category.polyglot (some exercise) s same h =
    ap (λ e. unfired_status (execute_exercises w e s)) same
    ∙ single_status w.fired quiet exercise w.outcome 0 s.languages s (ap is_cancelled_status h)
category_status w quiet Category.polyglot none s same h =
    ap (λ e. unfired_status (execute_exercises w e s)) same
    ∙ all_status w.show w.fired quiet w.results 0 s.languages 0 s (ap is_cancelled_status h)
    ∙ ap (λ t. good_or_failed (ok_so_far t && all_results_succeed w.results 0 s.languages)) h

false-true : false ≡ true → ⊥
false-true e = cc

-- A run reports CANCELLED exactly if its token is fired when the run ends; otherwise COMPLETED
-- exactly if what it asked for succeeded, and FAILED if not: for a named exercise its run in every
-- language, for a day of AoC the run of the day, and for all exercises every result that came back
-- in every language, where an exercise whose run ends in an error has none and does not count. A
-- token that was read as fired stays so.
pub execute_status :
    (w : World) (now later : ℕ) (fired_last : Bool) (s : BenchmarkSession)
    → ((i : ℕ) → w.fired i ≡ true → fired_last ≡ true)
    → (execute w now later fired_last s).status ≡ (
        if fired_last
        then RunStatus.cancelled
        else good_or_failed (succeeds w s.category s.exercise_name s.languages))
unfolding execute start
execute_status w now later true s stays =
    let ran = execute_category w s.category (start now s) in
    (finalize_status later ran.error true ran.session).0
execute_status w now later false s stays =
    let ran = execute_category w s.category (start now s) in
    (finalize_status later ran.error false ran.session).0
    ∙ category_status w quiet s.category s.exercise_name (start now s) refl refl
  where
    quiet : (i : ℕ) → w.fired i ≡ false
    quiet i = elim (Bool-cases (w.fired i)) [ inl e ↦ absurd (false-true (stays i e)) | inr e ↦ e ]
