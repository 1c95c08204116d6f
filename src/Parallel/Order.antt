-- ===== src/Parallel/Order.antt =====
-- The results of crates/benchmark-core/src/parallel/mod.rs for every interleaving of the tasks, and
-- the number of tasks that run at once.
use mathlib.Core.List.{append-nil, append_assoc}
use llm_benchmark.Common.{
  ℕ, suc, ◌+◌, ◌≤◌, ◌≡◌, refl, sym, ap, ◌∙◌, List, [], ◌∷◌, ◌++◌, Option, none, some, map, arith,
}
use llm_benchmark.Worker.Tokio.{Runtime}
use llm_benchmark.Parallel.{
  Outcome, returned, Task, waiting, working, ended, Starts, Ends, push_result, execute_sequential,
  Pool, spawned, Step, acquires, releases, collects, Reach, here, next,
}

module _ {ℓ} {T : Type ℓ} where
  abbrev pub outcome_of : Task T → Outcome T
  outcome_of (waiting o) = o
  outcome_of (working o) = o
  outcome_of (ended o) = o

  abbrev pub count_working : List (Task T) → ℕ
  count_working [] = 0
  count_working (working o ∷ ts) = suc (count_working ts)
  count_working (waiting o ∷ ts) = count_working ts
  count_working (ended o ∷ ts) = count_working ts

  outcomes-Starts : {ts us : List (Task T)} → Starts ts us → map outcome_of us ≡ map outcome_of ts
  outcomes-Starts Starts.first = refl
  outcomes-Starts (Starts.later {t = t} s) = ap (◌∷◌ (outcome_of t)) (outcomes-Starts s)

  outcomes-Ends : {ts us : List (Task T)} → Ends ts us → map outcome_of us ≡ map outcome_of ts
  outcomes-Ends Ends.first = refl
  outcomes-Ends (Ends.later {t = t} s) = ap (◌∷◌ (outcome_of t)) (outcomes-Ends s)

  count-Starts : {ts us : List (Task T)} → Starts ts us → count_working us ≡ suc (count_working ts)
  count-Starts Starts.first = refl
  count-Starts (Starts.later {t = waiting o} s) = count-Starts s
  count-Starts (Starts.later {t = working o} s) = ap suc (count-Starts s)
  count-Starts (Starts.later {t = ended o} s) = count-Starts s

  count-Ends : {ts us : List (Task T)} → Ends ts us → count_working ts ≡ suc (count_working us)
  count-Ends Ends.first = refl
  count-Ends (Ends.later {t = waiting o} s) = count-Ends s
  count-Ends (Ends.later {t = working o} s) = ap suc (count-Ends s)
  count-Ends (Ends.later {t = ended o} s) = count-Ends s

  map-waiting : (os : List (Outcome T)) → map outcome_of (map waiting os) ≡ os
  map-waiting [] = refl
  map-waiting (o ∷ os) = ap (◌∷◌ o) (map-waiting os)

  count-waiting : (os : List (Outcome T)) → count_working (map waiting os) ≡ 0
  count-waiting [] = refl
  count-waiting (o ∷ os) = count-waiting os

module _ {ℓ κ} {T : Type ℓ} {R : Type κ} (runtime : Runtime) (push : Outcome T → List R) where
  open runtime use {available, available_with, acquire_takes, add_permit_gives}

  -- What is pushed for a list of outcomes, in order.
  abbrev pub pushed : List (Outcome T) → List R
  pushed [] = []
  pushed (o ∷ os) = push o ++ pushed os

  pub record IsOrdered (n : ℕ) (os : List (Outcome T)) (p : Pool runtime push) : Type κ where
    pub order : p.results ++ pushed (map outcome_of p.handles) ≡ pushed os
    pub permits : available p.semaphore + count_working p.handles ≡ n

  pub spawned-IsOrdered :
      (n : ℕ) (os : List (Outcome T)) → IsOrdered n os (spawned runtime push n os)
  unfolding spawned
  spawned-IsOrdered n os = record {
    order = ap pushed (map-waiting os);
    permits = omega (arith, count-waiting os, available_with n);
  }

  Step-IsOrdered :
      (n : ℕ) (os : List (Outcome T)) {p q : Pool runtime push}
      → Step runtime push p q
      → IsOrdered n os p
      → IsOrdered n os q
  Step-IsOrdered n os {p} (acquires s ts taken starts) v = record {
    order = ap (λ us. p.results ++ pushed us) (outcomes-Starts starts) ∙ v.order;
    permits = omega (arith, acquire_takes p.semaphore s taken, count-Starts starts, v.permits);
  }
  Step-IsOrdered n os {p} (releases ts ends) v = record {
    order = ap (λ us. p.results ++ pushed us) (outcomes-Ends ends) ∙ v.order;
    permits = omega (arith, add_permit_gives p.semaphore, count-Ends ends, v.permits);
  }
  Step-IsOrdered n os {p} (collects o ts front) v = record {
    order =
        append_assoc p.results (push o) (pushed (map outcome_of ts))
        ∙ ap (λ us. p.results ++ pushed (map outcome_of us)) (sym front)
        ∙ v.order;
    permits = ap (λ us. available p.semaphore + count_working us) (sym front) ∙ v.permits;
  }

  pub Reach-IsOrdered :
      (n : ℕ) (os : List (Outcome T)) {p q : Pool runtime push}
      → IsOrdered n os p
      → Reach runtime push p q
      → IsOrdered n os q
  Reach-IsOrdered n os v here = v
  Reach-IsOrdered n os v (next h s) = Step-IsOrdered n os s (Reach-IsOrdered n os v h)

sequential-pushed {ℓ} :
    {T : Type ℓ} (runtime : Runtime) (rs : List (Option T))
    → pushed runtime push_result (map returned rs) ≡ execute_sequential rs
unfolding push_result execute_sequential
sequential-pushed runtime [] = refl
sequential-pushed runtime (some v ∷ rs) = ap (◌∷◌ v) (sequential-pushed runtime rs)
sequential-pushed runtime (none ∷ rs) = sequential-pushed runtime rs

-- In every interleaving at most as many tasks run at once as the parallelism says.
pub working_at_most {ℓ κ} :
    {T : Type ℓ} {R : Type κ} (runtime : Runtime) (push : Outcome T → List R) (n : ℕ)
    (os : List (Outcome T)) (p : Pool runtime push)
    → Reach runtime push (spawned runtime push n os) p
    → count_working p.handles ≤ n
working_at_most runtime push n os p h =
    let v = Reach-IsOrdered runtime push n os (spawned-IsOrdered runtime push n os) h in
    omega (arith, v.permits)

-- Whatever the interleaving, when all handles have been awaited and no task panics, the results are
-- those of the sequential execution, in its order.
pub parallel-sequential {ℓ} :
    {T : Type ℓ} (runtime : Runtime) (n : ℕ) (rs : List (Option T)) (p : Pool runtime push_result)
    → Reach runtime push_result (spawned runtime push_result n (map returned rs)) p
    → p.handles ≡ []
    → p.results ≡ execute_sequential rs
parallel-sequential runtime n rs p h over =
    let v =
      Reach-IsOrdered runtime push_result n (map returned rs)
        (spawned-IsOrdered runtime push_result n (map returned rs)) h in
    sym (append-nil p.results)
    ∙ ap (λ us. p.results ++ pushed runtime push_result (map outcome_of us)) (sym over)
    ∙ v.order
    ∙ sequential-pushed runtime rs
