-- ===== src/Stats.antt =====
-- Wall-clock time in crates/benchmark-types/src/agent/mod.rs: the merging of overlapping intervals.
-- Times are milliseconds since the epoch; their sums, which the program takes in u64, are exact.
pub mod Measure
pub mod Merging
mod Tests
use llm_benchmark.Common.{
  ℕ, zero, suc, ◌+◌, ◌-◌, Bool, true, false, String, List, [], ◌∷◌, Option, none, some,
  if◌then◌else◌, leb, ltb, ◌&&◌, any,
}

-- [start, end).
pub record TimeInterval : Type 0 where
  pub start : ℕ
  pub end : ℕ

-- `saturating_sub` of the ends.
abbrev pub duration : TimeInterval → ℕ
duration i = i.end - i.start

abbrev max : ℕ → ℕ → ℕ
max a b = if leb a b then b else a

-- `sort_by_key(|i| i.start)`, which is stable, by insertion.
unfoldable pub insert_by_start : TimeInterval → List TimeInterval → List TimeInterval
insert_by_start i [] = i ∷ []
insert_by_start i (j ∷ js) = if leb i.start j.start then i ∷ j ∷ js else j ∷ insert_by_start i js

unfoldable pub sort_by_start : List TimeInterval → List TimeInterval
unfolding insert_by_start
sort_by_start [] = []
sort_by_start (i ∷ is) = insert_by_start i (sort_by_start is)

-- The loop over the sorted intervals, with the total and the current interval.
unfoldable pub merge_loop : ℕ → ℕ → ℕ → List TimeInterval → ℕ
merge_loop total current_start current_end [] = total + (current_end - current_start)
merge_loop total current_start current_end (i ∷ is) =
    let extended = merge_loop total current_start (max current_end i.end) is in
    let closed = merge_loop (total + (current_end - current_start)) i.start i.end is in
    if leb i.start current_end then extended else closed

unfoldable pub merge_sorted : List TimeInterval → ℕ
unfolding merge_loop
merge_sorted [] = 0
merge_sorted (i ∷ is) = merge_loop 0 i.start i.end is

unfoldable pub merge_intervals_and_total_duration : List TimeInterval → ℕ
unfolding merge_sorted sort_by_start
merge_intervals_and_total_duration intervals = merge_sorted (sort_by_start intervals)
