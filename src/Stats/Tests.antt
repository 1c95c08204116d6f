-- ===== src/Stats/Tests.antt =====
-- The wall-clock time of crates/benchmark-types/src/agent/mod.rs at concrete intervals.
use llm_benchmark.Common.{ℕ, ◌≡◌, refl, [], ◌∷◌, arith}
use llm_benchmark.Stats.{
  TimeInterval, merge_intervals_and_total_duration, sort_by_start, insert_by_start, merge_sorted,
  merge_loop,
}
use llm_benchmark.Stats.Measure.{count, covered}
use llm_benchmark.Stats.Merging.{merge_intervals-count}

abbrev between : ℕ → ℕ → TimeInterval
between s e = record { start = s; end = e }

-- The example above the function, whose total is 250 ms.
example_total :
    merge_intervals_and_total_duration (between 0 100 ∷ between 50 150 ∷ between 200 300 ∷ []) ≡ 250
unfolding merge_intervals_and_total_duration sort_by_start insert_by_start merge_sorted merge_loop
example_total = refl

merge_intervals-count_example :
    merge_intervals_and_total_duration (between 5 9 ∷ between 1 3 ∷ between 2 6 ∷ [])
    ≡ count (covered (between 5 9 ∷ between 1 3 ∷ between 2 6 ∷ [])) 10
merge_intervals-count_example =
    merge_intervals-count 10 (between 5 9 ∷ between 1 3 ∷ between 2 6 ∷ [])
      ((omega arith, omega arith), ((omega arith, omega arith), ((omega arith, omega arith), tt)))
