-- ===== src/Parallel.antt =====
-- The parallel executor: `execute_parallel`, `execute_parallel_allow_nulls` and `execute_sequential`
-- of crates/benchmark-core/src/parallel/mod.rs. The spawned tasks interleave; a step is one that takes
-- a permit, one that ends and gives it back, or the main loop's next handle that is ready. The
-- semaphore is tokio's; it is never closed, so to acquire a permit never fails.
pub mod Order
pub mod Progress
mod Tests
use llm_benchmark.Common.{ℕ, suc, ◌+◌, ◌≡◌, List, [], ◌∷◌, ◌++◌, Option, none, some, map}
use llm_benchmark.Worker.Tokio.{Runtime}

-- How a task ends: with what it returns, or with a panic.
pub data Outcome {ℓ} (T : Type ℓ) : Type ℓ where
  returned : Option T → Outcome T
  panicked : Outcome T

-- A task that waits for a permit, runs, or has ended; its outcome is what it is going to be.
pub data Task {ℓ} (T : Type ℓ) : Type ℓ where
  waiting : Outcome T → Task T
  working : Outcome T → Task T
  ended : Outcome T → Task T

-- One of the tasks gets a permit, or ends.
pub data Starts {ℓ} {T : Type ℓ} : List (Task T) → List (Task T) → Type ℓ where
  first : {o : Outcome T} {ts : List (Task T)} → Starts (waiting o ∷ ts) (working o ∷ ts)
  later : {t : Task T} {ts us : List (Task T)} → Starts ts us → Starts (t ∷ ts) (t ∷ us)

pub data Ends {ℓ} {T : Type ℓ} : List (Task T) → List (Task T) → Type ℓ where
  first : {o : Outcome T} {ts : List (Task T)} → Ends (working o ∷ ts) (ended o ∷ ts)
  later : {t : Task T} {ts us : List (Task T)} → Ends ts us → Ends (t ∷ ts) (t ∷ us)

-- What the main loop pushes for an outcome: `execute_parallel` skips what is not there,
-- `execute_parallel_allow_nulls` keeps a none for it.
unfoldable pub push_result {ℓ} : {T : Type ℓ} → Outcome T → List T
push_result (returned (some v)) = v ∷ []
push_result (returned none) = []
push_result panicked = []

unfoldable pub push_or_none {ℓ} : {T : Type ℓ} → Outcome T → List (Option T)
push_or_none (returned r) = r ∷ []
push_or_none panicked = none ∷ []

-- `execute_sequential` of tasks with these outcomes; a panic ends it, so there is none.
unfoldable pub execute_sequential {ℓ} : {T : Type ℓ} → List (Option T) → List T
execute_sequential [] = []
execute_sequential (some v ∷ rest) = v ∷ execute_sequential rest
execute_sequential (none ∷ rest) = execute_sequential rest

module _ {ℓ κ} {T : Type ℓ} {R : Type κ} (runtime : Runtime) (push : Outcome T → List R) where
  -- The handles that are not awaited yet, and the results so far.
  pub record Pool : Type (ℓ ⊔ κ) where
    pub semaphore : Runtime.Semaphore runtime
    pub handles : List (Task T)
    pub results : List R

  -- All tasks are spawned, with `parallelism` permits.
  unfoldable pub spawned : ℕ → List (Outcome T) → Pool
  spawned parallelism outcomes = record {
    semaphore = Runtime.with_permits runtime parallelism;
    handles = map waiting outcomes;
    results = [];
  }

  pub data Step (p : Pool) : Pool → Type (ℓ ⊔ κ) where
    acquires :
        (s : Runtime.Semaphore runtime) (ts : List (Task T))
        → Runtime.try_acquire runtime p.semaphore ≡ some s
        → Starts p.handles ts
        → Step p (record p { semaphore = s; handles = ts })
    releases :
        (ts : List (Task T))
        → Ends p.handles ts
        → Step p (record p { semaphore = Runtime.add_permit runtime p.semaphore; handles = ts })
    collects :
        (o : Outcome T) (ts : List (Task T))
        → p.handles ≡ ended o ∷ ts
        → Step p (record p { handles = ts; results = p.results ++ push o })

  pub data Reach (p : Pool) : Pool → Type (ℓ ⊔ κ) where
    here : Reach p p
    next : {q r : Pool} → Reach p q → Step q r → Reach p r
