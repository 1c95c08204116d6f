-- ===== src/Parallel/Progress.antt =====
-- The parallel executor of crates/benchmark-core/src/parallel/mod.rs comes to an end: it never gets
-- stuck, and every step brings it nearer.
use llm_benchmark.Common.{
  ℕ, zero, suc, ◌+◌, ◌≤◌, ◌≡◌, refl, sym, ap, ◌∙◌, ◌⊎◌, inl, inr, List, [], ◌∷◌, ◌++◌, map, arith,
  length, subst, ◌*◌,
}
use llm_benchmark.Worker.Tokio.{Runtime}
use llm_benchmark.Parallel.{
  Outcome, Task, waiting, working, ended, Starts, Ends, Pool, spawned, Step, acquires, releases,
  collects, Reach,
}
use llm_benchmark.Parallel.Order.{count_working, spawned-IsOrdered, Reach-IsOrdered}

zero-or-suc : (n : ℕ) → (n ≡ 0) ⊎ ((m : ℕ) × (n ≡ suc m))
zero-or-suc zero = inl refl
zero-or-suc (suc m) = inr (m, refl)

module _ {ℓ} {T : Type ℓ} where
  -- The steps that a list of handles still has before it.
  abbrev pub work : List (Task T) → ℕ
  work [] = 0
  work (waiting o ∷ ts) = 3 + work ts
  work (working o ∷ ts) = 2 + work ts
  work (ended o ∷ ts) = 1 + work ts

  work-Starts : {ts us : List (Task T)} → Starts ts us → work ts ≡ suc (work us)
  work-Starts Starts.first = omega arith
  work-Starts (Starts.later {t = waiting o} s) = omega (arith, work-Starts s)
  work-Starts (Starts.later {t = working o} s) = omega (arith, work-Starts s)
  work-Starts (Starts.later {t = ended o} s) = omega (arith, work-Starts s)

  work-Ends : {ts us : List (Task T)} → Ends ts us → work ts ≡ suc (work us)
  work-Ends Ends.first = omega arith
  work-Ends (Ends.later {t = waiting o} s) = omega (arith, work-Ends s)
  work-Ends (Ends.later {t = working o} s) = omega (arith, work-Ends s)
  work-Ends (Ends.later {t = ended o} s) = omega (arith, work-Ends s)

  -- A running task can end.
  some-Ends :
      (ts : List (Task T)) (n : ℕ) → count_working ts ≡ suc n → (us : List (Task T)) × Ends ts us
  some-Ends [] n e = absurd (omega (arith, e))
  some-Ends (waiting o ∷ ts) n e = let (us, s) = some-Ends ts n e in (waiting o ∷ us, Ends.later s)
  some-Ends (working o ∷ ts) n e = (ended o ∷ ts, Ends.first)
  some-Ends (ended o ∷ ts) n e = let (us, s) = some-Ends ts n e in (ended o ∷ us, Ends.later s)

work-waiting {ℓ} : {T : Type ℓ} (os : List (Outcome T)) → work (map waiting os) ≡ 3 * length os
work-waiting [] = refl
work-waiting (o ∷ os) = omega (arith, work-waiting os)

module _ {ℓ κ} {T : Type ℓ} {R : Type κ} (runtime : Runtime) (push : Outcome T → List R) where
  open runtime use {available, acquire_succeeds}

  -- A state from which there is a step.
  unfoldable pub Goes : Pool runtime push → Type (ℓ ⊔ κ)
  Goes p = (q : Pool runtime push) × Step runtime push p q

  -- The number of steps of a run.
  abbrev pub steps : {p q : Pool runtime push} → Reach runtime push p q → ℕ
  steps Reach.here = 0
  steps (Reach.next h s) = suc (steps h)

  Step-work :
      {p q : Pool runtime push} → Step runtime push p q → work p.handles ≡ suc (work q.handles)
  Step-work (acquires s ts taken starts) = work-Starts starts
  Step-work (releases ts ends) = work-Ends ends
  Step-work (collects o ts front) = ap work front ∙ omega arith

  steps-work :
      {p q : Pool runtime push} (h : Reach runtime push p q)
      → steps h + work q.handles ≡ work p.handles
  steps-work Reach.here = omega arith
  steps-work (Reach.next h s) = omega (arith, steps-work h, Step-work s)

  releases-Goes : (p : Pool runtime push) (n : ℕ) → count_working p.handles ≡ suc n → Goes p
  unfolding Goes
  releases-Goes p n e =
      let (us, s) = some-Ends p.handles n e in
      (record p { semaphore = runtime.add_permit p.semaphore; handles = us }, releases us s)

  waiting-Goes :
      (n : ℕ) (p : Pool runtime push) (o : Outcome T) (ts : List (Task T))
      → available p.semaphore + count_working p.handles ≡ suc n
      → p.handles ≡ waiting o ∷ ts
      → Goes p
  unfolding Goes
  waiting-Goes n p o ts permits front = elim (zero-or-suc (available p.semaphore)) [
    | inl none_free ↦ releases-Goes p n (omega (arith, none_free, permits))
    | inr (m, free) ↦
        let (s, taken) = acquire_succeeds p.semaphore m free in
        (
          record p { semaphore = s; handles = working o ∷ ts },
          acquires s (working o ∷ ts) taken
              (subst (λ us. Starts us (working o ∷ ts)) (sym front) Starts.first),
        )
  ]

  Goes-on :
      (n : ℕ) (p : Pool runtime push) (ts : List (Task T))
      → available p.semaphore + count_working p.handles ≡ suc n
      → p.handles ≡ ts
      → (p.handles ≡ []) ⊎ Goes p
  unfolding Goes
  Goes-on n p [] permits e = inl e
  Goes-on n p (waiting o ∷ ts) permits e = inr (waiting-Goes n p o ts permits e)
  Goes-on n p (working o ∷ ts) permits e =
      inr (releases-Goes p (count_working ts) (ap count_working e))
  Goes-on n p (ended o ∷ ts) permits e =
      inr (record p { handles = ts; results = p.results ++ push o }, collects o ts e)

-- With a parallelism of at least 1 the executor never gets stuck: as long as a handle is not awaited
-- there is a step. No run has more than three steps for each task.
pub parallel_ends {ℓ κ} :
    {T : Type ℓ} {R : Type κ} (runtime : Runtime) (push : Outcome T → List R) (n : ℕ)
    (os : List (Outcome T)) (p : Pool runtime push)
    (h : Reach runtime push (spawned runtime push (suc n) os) p)
    → (steps runtime push h ≤ 3 * length os) × ((p.handles ≡ []) ⊎ Goes runtime push p)
unfolding spawned
parallel_ends runtime push n os p h =
    let v = Reach-IsOrdered runtime push (suc n) os (spawned-IsOrdered runtime push (suc n) os) h in
    (
      omega (arith, steps-work runtime push h, work-waiting os),
      Goes-on runtime push n p p.handles v.permits refl,
    )
