-- ===== src/Executor/Reported.antt =====
-- Which state a run reports in the end: `execute` of
-- benchmark-web/src/services/benchmark_executor.rs against the results of its exercises.
use llm_benchmark.Common.{
  ℕ, suc, Bool, true, false, ◌≡◌, refl, ap, ◌∙◌, inl, inr, List, [], ◌∷◌, Option, none, some,
  String, if◌then◌else◌, is_some, length, Bool-cases, ◌==◌,
}
use llm_benchmark.Status.{RunStatus}
use llm_benchmark.Item.{Category}
use llm_benchmark.Session.{BenchmarkSession, increment_completed, set_error_message}
use llm_benchmark.Executor.Exercises.{
  RunOutcome, ok, err, Ran, Saved, emit, is_stopped, is_cancelled_status, failed_with, after_run,
  execute_single_exercise, count_successful,
}
use llm_benchmark.Executor.Arms.{World, after_day, execute_aoc}

abbrev pub is_success : RunOutcome → Bool
is_success (ok r) = r.success
is_success (err short long) = false

-- The languages from number `i` on, one exercise each.
abbrev pub all_succeed : (ℕ → RunOutcome) → ℕ → List String → Bool
all_succeed outcome i [] = true
all_succeed outcome i (l ∷ ls) =
    if is_success (outcome i) then all_succeed outcome (suc i) ls else false

-- All results of the languages from number `i` on.
abbrev pub all_results_succeed : (ℕ → List Saved) → ℕ → List String → Bool
all_results_succeed results i [] = true
all_results_succeed results i (l ∷ ls) =
    if count_successful (results i) == length (results i)
    then all_results_succeed results (suc i) ls
    else false

-- Whether everything that a run of the session does succeeds.
unfoldable pub succeeds : World → Category → Option String → List String → Bool
succeeds w Category.aoc2015 exercise languages = is_success (w.outcome 0)
succeeds w Category.polyglot (some exercise) languages = all_succeed w.outcome 0 languages
succeeds w Category.polyglot none languages = all_results_succeed w.results 0 languages

abbrev pub good_or_failed : Bool → RunStatus
good_or_failed true = RunStatus.completed
good_or_failed false = RunStatus.failed

-- The state that the final part makes of a run when the token was not fired.
abbrev pub left_status : RunStatus → RunStatus
left_status RunStatus.failed = RunStatus.failed
left_status RunStatus.cancelled = RunStatus.cancelled
left_status _ = RunStatus.completed

abbrev pub unfired_status : Ran → RunStatus
unfired_status r = if is_some r.error then RunStatus.failed else left_status r.session.status

pub is_stopped-quiet :
    (s : BenchmarkSession) (fired : Bool)
    → is_cancelled_status s.status ≡ false
    → fired ≡ false
    → is_stopped s fired ≡ false
unfolding is_stopped
is_stopped-quiet s fired h quiet = rw (h, quiet) refl

after_run_status :
    (exercise language : String) (o : RunOutcome) (rest : BenchmarkSession → Ran)
    (s : BenchmarkSession)
    → unfired_status (after_run exercise language o rest s)
      ≡ (if is_success o then unfired_status (rest (increment_completed s)) else RunStatus.failed)
unfolding after_run emit failed_with set_error_message
after_run_status exercise language (err short long) rest s = refl
after_run_status exercise language (ok r) rest s = elim (Bool-cases r.success) [
  | inl e ↦ rw e refl
  | inr e ↦ rw e refl
]

after_day_status :
    (day : String) (o : RunOutcome) (s : BenchmarkSession)
    → unfired_status (after_day day o s) ≡ good_or_failed (is_success o)
unfolding after_day emit failed_with set_error_message
after_day_status day (err short long) s = refl
after_day_status day (ok r) s = elim (Bool-cases r.success) [
  | inl e ↦ rw e refl
  | inr e ↦ rw e refl
]

if_status :
    (b c : Bool)
    → (if b then good_or_failed c else RunStatus.failed) ≡ good_or_failed (if b then c else false)
if_status true c = refl
if_status false c = refl

module _ (fired : ℕ → Bool) (quiet : (i : ℕ) → fired i ≡ false) where
  pub single_status :
      (exercise : String) (outcome : ℕ → RunOutcome) (i : ℕ) (languages : List String)
      (s : BenchmarkSession)
      → is_cancelled_status s.status ≡ false
      → unfired_status (execute_single_exercise exercise fired outcome i languages s)
        ≡ good_or_failed (all_succeed outcome i languages)
  unfolding execute_single_exercise increment_completed emit
  single_status exercise outcome i [] s h = refl
  single_status exercise outcome i (l ∷ ls) s h =
      let rest = execute_single_exercise exercise fired outcome (suc i) ls in
      rw (is_stopped-quiet s (fired i) h (quiet i)) (
        after_run_status exercise l (outcome i) rest s
        ∙ ap (λ t. if is_success (outcome i) then t else RunStatus.failed)
            (single_status exercise outcome (suc i) ls (increment_completed s) h)
        ∙ if_status (is_success (outcome i)) (all_succeed outcome (suc i) ls))

  pub aoc_status :
      (day : String) (outcome : ℕ → RunOutcome) (s : BenchmarkSession)
      → is_cancelled_status s.status ≡ false
      → unfired_status (execute_aoc day fired outcome s) ≡ good_or_failed (is_success (outcome 0))
  unfolding execute_aoc emit
  aoc_status day outcome s h =
      rw (is_stopped-quiet s (fired 0) h (quiet 0)) (after_day_status day (outcome 0) s)
