-- ===== src/Suite/Runs.antt =====
-- What `run_all_exercises` of crates/benchmark-core/src/exercise_runner/mod.rs returns, and that it ends.
use Prim.Native.Nat.{max}
use llm_benchmark.Common.{
  ℕ, suc, ◌+◌, ◌*◌, ◌≤◌, Bool, true, List, [], ◌∷◌, length, retain, length-append, ◌≡◌, refl, ◌∙◌,
  ap, sym, arith, inl, inr, ◌⊎◌, Bool-cases, ◌&&◌,
}
use llm_benchmark.Ordering.{length-sort_by}
use llm_benchmark.Suite.{filter_map}
use llm_benchmark.Suite.Counts.{
  count, count_all, count-append, count-Takes, count-moved, length-Takes, retain_twice,
  passes_outcome, count-filter_map,
}
use llm_benchmark.Suite.Stream.{
  Runs, Takes, Buffer, Step, Reach, begin, start_order, keep, run_results, skips, starts, ends,
  here, next,
}

module _ {ℓ κ} {E : Type ℓ} {R : Type κ} (runs : Runs E R) (retry : Bool) (configured : ℕ) where
  -- The exercises that the filter keeps.
  abbrev pub planned : List E → List E
  planned exercises = retain (keep runs retry configured) exercises

  -- No exercise is lost or repeated, and the buffer keeps its bound.
  record IsOnPlan (exercises : List E) (s : Buffer runs retry configured) : Type ℓ where
    bounded : length s.running ≤ max configured 1
    complete :
        (test : E → Bool)
        → count test (planned exercises)
          ≡ count test s.finished + (count test s.running + count test (planned s.waiting))

  -- The steps that a state has before it, at most.
  abbrev pub work : Buffer runs retry configured → ℕ
  work s = 2 * length s.waiting + length s.running

  count-start_order :
      (test : E → Bool) (exercises : List E)
      → count test (start_order runs retry configured exercises) ≡ count test exercises
  unfolding start_order
  count-start_order test exercises = elim (Bool-cases retry) [
    | inl e ↦ rw (start_order, e) (length-sort_by _ test exercises)
    | inr e ↦ rw (start_order, e) refl
  ]

  planned-start_order :
      (test : E → Bool) (exercises : List E)
      → count test (planned (start_order runs retry configured exercises))
        ≡ count test (planned exercises)
  planned-start_order test exercises =
      ap length (
        retain_twice (keep runs retry configured) test
          (start_order runs retry configured exercises))
      ∙ count-start_order (λ x. keep runs retry configured x && test x) exercises
      ∙ sym (ap length (retain_twice (keep runs retry configured) test exercises))

  begin-IsOnPlan : (exercises : List E) → IsOnPlan exercises (begin runs retry configured exercises)
  unfolding begin
  begin-IsOnPlan exercises = record {
    bounded = ground arith;
    complete = λ test. omega (arith, planned-start_order test exercises);
  }

  Step-IsOnPlan :
      (exercises : List E) {s t : Buffer runs retry configured}
      → Step runs retry configured s t
      → IsOnPlan exercises s
      → IsOnPlan exercises t
  Step-IsOnPlan exercises {s = s} (skips e es at room left_out) h = record {
    bounded = h.bounded;
    complete = λ test. h.complete test ∙ rw (at, left_out) refl;
  }
  Step-IsOnPlan exercises {s = s} (starts e es at room kept) h = record {
    bounded = ground (arith, length-append s.running (e ∷ []), room);
    complete = λ test.
        h.complete test ∙ rw (at, kept) (count-moved test e s.finished s.running (planned es));
  }
  Step-IsOnPlan exercises {s = s} (ends e es taken) h = record {
    bounded = omega (arith, length-Takes taken, h.bounded);
    complete = λ test.
        h.complete test
        ∙ ground (arith, count-append test s.finished (e ∷ []), count-Takes test taken);
  }

  Reach-IsOnPlan :
      (exercises : List E) {s : Buffer runs retry configured} {n : ℕ}
      {t : Buffer runs retry configured}
      → Reach runs retry configured s n t
      → IsOnPlan exercises s
      → IsOnPlan exercises t
  Reach-IsOnPlan exercises here h = h
  Reach-IsOnPlan exercises (next r step) h =
      Step-IsOnPlan exercises step (Reach-IsOnPlan exercises r h)

  work-Step :
      {s t : Buffer runs retry configured} → Step runs retry configured s t → suc (work t) ≤ work s
  work-Step {s = s} (skips e es at room left_out) = rw at (ground arith)
  work-Step {s = s} (starts e es at room kept) =
      rw at (ground (arith, length-append s.running (e ∷ [])))
  work-Step {s = s} (ends e es taken) = omega (arith, length-Takes taken)

  work-Reach :
      {s : Buffer runs retry configured} {n : ℕ} {t : Buffer runs retry configured}
      → Reach runs retry configured s n t
      → n + work t ≤ work s
  work-Reach here = omega arith
  work-Reach (next r step) = omega (arith, work-Reach r, work-Step step)

  can_pull :
      (s : Buffer runs retry configured) (e : E) (es : List E)
      → s.waiting ≡ e ∷ es
      → s.running ≡ []
      → (t : Buffer runs retry configured) × Step runs retry configured s t
  can_pull s e es at idle = elim (Bool-cases (keep runs retry configured e)) [
    | inl kept ↦ (_, starts e es at (rw idle (ground arith)) kept)
    | inr left_out ↦ (_, skips e es at (rw idle (ground arith)) left_out)
  ]

  progress :
      (s : Buffer runs retry configured) (w r : List E)
      → s.waiting ≡ w
      → s.running ≡ r
      → ((s.waiting ≡ []) × (s.running ≡ []))
        ⊎ ((t : Buffer runs retry configured) × Step runs retry configured s t)
  progress s [] [] at idle = inl (at, idle)
  progress s (e ∷ es) [] at idle = inr (can_pull s e es at idle)
  progress s w (e ∷ es) at busy = inr (_, ends e es (rw busy Takes.first))

  work-begin :
      (exercises : List E) → work (begin runs retry configured exercises) ≡ 2 * length exercises
  unfolding begin
  work-begin exercises = omega (
    arith,
    count_all (start_order runs retry configured exercises),
    count_all exercises,
    count-start_order (λ _. true) exercises,
  )

  at_end :
      (exercises : List E) (s : Buffer runs retry configured)
      → IsOnPlan exercises s
      → s.waiting ≡ []
      → s.running ≡ []
      → (test : E → Bool) → count test (planned exercises) ≡ count test s.finished
  at_end exercises s h drained idle test = h.complete test ∙ rw (drained, idle) (omega arith)

  -- A state without a step has ended.
  ends-or-Step :
      (s : Buffer runs retry configured)
      → ((s.waiting ≡ []) × (s.running ≡ []))
        ⊎ ((t : Buffer runs retry configured) × Step runs retry configured s t)
  ends-or-Step s = progress s s.waiting s.running refl refl

at_most : (n w : ℕ) {a b : ℕ} → n + w ≤ a → a ≡ b → n ≤ b
at_most n w h e = omega (arith, h, e)

-- In whatever order the runs end, no more exercises than the parallelism are under way, a state that
-- cannot go on has ended, it does so within two steps for each exercise, and then the results are those
-- of the exercises that the filter keeps, each once, less those whose runs fail.
pub run_all_exercises_returns :
    {E R : Type 0} (runs : Runs E R) (retry : Bool) (configured : ℕ) (exercises : List E) {n : ℕ}
    {s : Buffer runs retry configured}
    → Reach runs retry configured (begin runs retry configured exercises) n s
    → (length s.running ≤ max configured 1)
      × ((n ≤ 2 * length exercises)
          × (((t : Buffer runs retry configured) × Step runs retry configured s t)
              ⊎ ((test : R → Bool)
                  → count test (run_results runs retry configured s)
                    ≡ count test (
                        filter_map (Runs.outcome runs) (planned runs retry configured exercises)))))
unfolding run_results
run_all_exercises_returns runs retry configured exercises {n = n} {s = s} r =
    let on_plan =
      Reach-IsOnPlan runs retry configured exercises r
        (begin-IsOnPlan runs retry configured exercises) in
    (
      on_plan.bounded,
      (
        at_most n (work runs retry configured s) (work-Reach runs retry configured r)
            (work-begin runs retry configured exercises),
        elim (ends-or-Step runs retry configured s) [
          | inr step ↦ inl step
          | inl (drained, idle) ↦ inr (λ test.
              count-filter_map (Runs.outcome runs) test s.finished
              ∙ sym (
                  at_end runs retry configured exercises s on_plan drained idle
                    (λ e. passes_outcome (Runs.outcome runs) test (Runs.outcome runs e)))
              ∙ sym (
                  count-filter_map (Runs.outcome runs) test
                    (planned runs retry configured exercises)))
        ],
      ),
    )
