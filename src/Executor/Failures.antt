-- ===== src/Executor/Failures.antt =====
-- Which state a run of all exercises leaves: `execute_all_exercises` of
-- benchmark-web/src/services/benchmark_executor.rs against the results.
use llm_benchmark.Common.{
  ℕ, suc, ◌+◌, ◌-◌, Bool, true, false, ◌≡◌, refl, sym, ap, ◌∙◌, inl, inr, List, [], ◌∷◌, String,
  arith, if◌then◌else◌, ltb, ◌&&◌, length, Bool-cases, length-retain-le, ◌==◌,
}
use llm_benchmark.Status.{RunStatus}
use llm_benchmark.Session.{BenchmarkSession, set_error_message, set_total_exercises}
use llm_benchmark.Executor.Exercises.{
  Saved, emit, is_cancelled_status, is_failed_status, execute_all_exercises, close_all,
  after_results, count_successful, save_warnings, save_with_reporting,
}
use llm_benchmark.Executor.Reported.{
  all_results_succeed, good_or_failed, unfired_status, is_stopped-quiet,
}

-- A state of a run that goes on: FAILED once a language had a failure.
abbrev pub ok_so_far : RunStatus → Bool
ok_so_far RunStatus.failed = false
ok_so_far _ = true

all_good : List Saved → Bool
all_good saved = count_successful saved == length saved

save_status :
    (show : ℕ → String) (n : ℕ) (s : BenchmarkSession)
    → (save_with_reporting show n s).status ≡ s.status
unfolding save_with_reporting set_error_message
save_status show n s = elim (Bool-cases (ltb 0 n)) [ inl e ↦ rw e refl | inr e ↦ rw e refl ]

marked : List Saved → BenchmarkSession → BenchmarkSession
marked saved s =
    if ltb 0 (length saved - count_successful saved)
    then record s { status = RunStatus.failed }
    else s

marked_status :
    (saved : List Saved) (s : BenchmarkSession)
    → (marked saved s).status ≡ (if all_good saved then s.status else RunStatus.failed)
unfolding marked all_good
marked_status saved s = elim (Bool-cases (all_good saved)) [
  | inl e ↦
      let none_failed : ltb 0 (length saved - count_successful saved) ≡ false = ground (arith, e) in
      rw (none_failed, e) refl
  | inr e ↦
      let le = length-retain-le (λ r. r.0.success) saved in
      let some_failed : ltb 0 (length saved - count_successful saved) ≡ true =
        ground (arith, e, le) in
      rw (some_failed, e) refl
]

after_results_status :
    (show : ℕ → String) (saved : List Saved) (s : BenchmarkSession)
    → (after_results show saved s).status ≡ (if all_good saved then s.status else RunStatus.failed)
unfolding after_results marked
after_results_status show saved s =
    save_status show (length (save_warnings saved)) (marked saved s) ∙ marked_status saved s

true-false : true ≡ false → ⊥
true-false e = cc

and_false : (b : Bool) → b && false ≡ false
and_false true = refl
and_false false = refl

and_true : (b : Bool) → b && true ≡ b
and_true true = refl
and_true false = refl

close_all_status :
    (total : ℕ) (s : BenchmarkSession)
    → is_cancelled_status s.status ≡ false
    → unfired_status (close_all total s) ≡ good_or_failed (ok_so_far s.status)
unfolding close_all is_failed_status set_error_message set_total_exercises is_cancelled_status
close_all_status total s h = by_status s.status refl
  where
    by_status :
        (t : RunStatus)
        → s.status ≡ t
        → unfired_status (close_all total s) ≡ good_or_failed (ok_so_far s.status)
    by_status RunStatus.pending e = rw e refl
    by_status RunStatus.running e = rw e refl
    by_status RunStatus.completed e = rw e refl
    by_status RunStatus.failed e = rw e refl
    by_status RunStatus.cancelled e = absurd (true-false (ap is_cancelled_status (sym e) ∙ h))

going_on :
    (good : Bool) (t : RunStatus)
    → is_cancelled_status t ≡ false
    → is_cancelled_status (if good then t else RunStatus.failed) ≡ false
unfolding is_cancelled_status
going_on true t h = h
going_on false t h = refl

carried :
    (good rest : Bool) (t : RunStatus)
    → ok_so_far (if good then t else RunStatus.failed) && rest
      ≡ ok_so_far t && (if good then rest else false)
carried true rest t = refl
carried false rest t = sym (and_false (ok_so_far t))

module _ (show : ℕ → String) (fired : ℕ → Bool) (quiet : (i : ℕ) → fired i ≡ false)
    (results : ℕ → List Saved) where
  pub all_status :
      (i : ℕ) (languages : List String) (total : ℕ) (s : BenchmarkSession)
      → is_cancelled_status s.status ≡ false
      → unfired_status (execute_all_exercises show fired results i languages total s)
        ≡ good_or_failed (ok_so_far s.status && all_results_succeed results i languages)
  unfolding execute_all_exercises emit all_good
  all_status i [] total s h =
      close_all_status total s h ∙ ap good_or_failed (sym (and_true (ok_so_far s.status)))
  all_status i (l ∷ ls) total s h =
      let next = after_results show (results i) s in
      let same = after_results_status show (results i) s in
      let going = going_on (all_good (results i)) s.status h in
      rw (is_stopped-quiet s (fired i) h (quiet i)) (
        all_status (suc i) ls (total + length (results i)) next
          (ap is_cancelled_status same ∙ going)
        ∙ ap (λ t. good_or_failed (ok_so_far t && all_results_succeed results (suc i) ls)) same
        ∙ ap good_or_failed
            (carried (all_good (results i)) (all_results_succeed results (suc i) ls) s.status))
