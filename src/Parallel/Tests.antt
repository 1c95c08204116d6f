-- ===== src/Parallel/Tests.antt =====
-- Runs of the parallel executor of crates/benchmark-core/src/parallel/mod.rs.
use llm_benchmark.Common.{ℕ, ◌≤◌, ◌≡◌, refl, ◌⊎◌, List, [], ◌∷◌, Option, none, some, map}
use llm_benchmark.Worker.Counted.{counted_runtime, take_permit}
use llm_benchmark.Parallel.{
  returned, waiting, working, ended, Starts, Ends, push_result, execute_sequential, Pool, spawned,
  acquires, releases, collects, Reach, here, next,
}
use llm_benchmark.Parallel.Order.{parallel-sequential}
use llm_benchmark.Parallel.Progress.{Goes, steps, parallel_ends}

abbrev answers : List (Option ℕ)
answers = some 7 ∷ none ∷ []

abbrev start : Pool counted_runtime (push_result {T = ℕ})
start = spawned counted_runtime push_result 2 (map returned answers)

abbrev finished : Pool counted_runtime (push_result {T = ℕ})
finished = record { semaphore = 2; handles = []; results = 7 ∷ [] }

-- The second task runs and ends before the first one.
second_first : Reach counted_runtime push_result start finished
unfolding take_permit push_result spawned
second_first =
    next
      (next
        (next
          (next
            (next
              (next here (
                acquires 1 (waiting (returned (some 7)) ∷ working (returned none) ∷ []) refl
                  (Starts.later Starts.first)))
              (releases (waiting (returned (some 7)) ∷ ended (returned none) ∷ [])
                (Ends.later Ends.first)))
            (acquires 1 (working (returned (some 7)) ∷ ended (returned none) ∷ []) refl
              Starts.first))
          (releases (ended (returned (some 7)) ∷ ended (returned none) ∷ []) Ends.first))
        (collects (returned (some 7)) (ended (returned none) ∷ []) refl))
      (collects (returned none) [] refl)

parallel-sequential_example : finished.results ≡ execute_sequential answers
unfolding spawned
parallel-sequential_example =
    parallel-sequential counted_runtime 2 answers finished second_first refl

parallel_ends_example :
    (steps counted_runtime push_result second_first ≤ 6)
    × ((finished.handles ≡ []) ⊎ Goes counted_runtime push_result finished)
unfolding spawned
parallel_ends_example =
    parallel_ends counted_runtime push_result 1 (map returned answers) finished second_first
