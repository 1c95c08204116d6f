-- ===== src/Results/Tests.antt =====
-- The statistics of benchmark-web/src/services/result_service at concrete results.
use llm_benchmark.Common.{
  ℕ, true, false, String, List, [], ◌∷◌, Option, none, some, ◌≡◌, refl, any, ◌&&◌, arith, str_eq,
  if◌then◌else◌,
}
use llm_benchmark.Text.{str_append, is_empty}
use llm_benchmark.Stats.{
  merge_intervals_and_total_duration, sort_by_start, insert_by_start, merge_sorted, merge_loop,
}
use llm_benchmark.Stats.Measure.{count}
use llm_benchmark.Results.{
  CachedResult, Filters, get_statistics, passes_wall, model_key, interval_of, wall_intervals,
  matches, matches_filter, passes_quick,
}
use llm_benchmark.Results.Sums.{AddUp, statistics-AddUp}
use llm_benchmark.Results.WallClock.{ran_at, asked_for, statistics_wall_clock}
use llm_benchmark.Results.Completeness.{
  Expected, contains_name, all_exercise_names, get_completeness_info, expected_names, insert_all,
  insert_set, key_exercises, complete_keys, all_in,
}
use llm_benchmark.Results.Complete.{has_key, has_all_results}
use llm_benchmark.Results.Keys.{complete_keys_exact}

abbrev parse : String → Option ℕ
parse t = if str_eq t "a" then some 10 else if str_eq t "b" then some 30 else none

abbrev result : String → String → String → CachedResult
result exercise language category = record {
  exercise = exercise;
  agent = "pi";
  language = language;
  category = category;
  model = "clef";
  total_exercises = 1;
  successful = 1;
  input_tokens = 100;
  output_tokens = 20;
  cached_input_tokens = 60;
  uncached_input_tokens = 40;
  start_time = "a";
  end_time = "b";
}

abbrev runs : List CachedResult
runs = result "clock" "go" "polyglot" ∷ result "day01" "aoc2015" "aoc2015" ∷ []

abbrev all_of : Filters
all_of = record {
  by_language = none;
  by_agent = none;
  by_model = none;
  by_exercise = none;
  quick_only = false;
  by_category = none;
}

abbrev other_category : Filters
other_category = record all_of { by_category = some "none such" }

statistics-AddUp_example :
    let stats = (get_statistics parse all_of runs).loop in
    AddUp stats.languages.sums stats.totals
    × AddUp stats.agents.sums stats.totals
    × AddUp stats.models.sums stats.totals
    × AddUp stats.categories.sums stats.totals
statistics-AddUp_example = statistics-AddUp parse all_of runs

statistics_wall_clock_example :
    ((get_statistics parse other_category runs).wall_clock_ms
      ≡ count (λ t. any (λ r. asked_for other_category r && ran_at parse t r) runs) 40)
    × ((get_statistics parse (record other_category { by_category = none }) runs).wall_clock_ms
        ≡ (get_statistics parse other_category runs).wall_clock_ms)
unfolding interval_of
statistics_wall_clock_example =
    statistics_wall_clock parse other_category 40 runs none
      ((omega arith, tt), ((omega arith, tt), tt))

-- With a category that no result has, 20 ms of wall-clock time remain.
wall_clock_of_nothing : (get_statistics parse other_category runs).wall_clock_ms ≡ 20
unfolding get_statistics wall_intervals passes_wall matches_filter matches passes_quick interval_of
    merge_intervals_and_total_duration sort_by_start insert_by_start merge_sorted merge_loop
wall_clock_of_nothing = refl

abbrev both_languages : Option Expected
both_languages = some (("go", "clock" ∷ []) ∷ ("rust", "clock" ∷ []) ∷ [])

complete_keys_exact_example :
    contains_name (get_completeness_info false both_languages runs).keys "pi - clef" ≡ (
      any (has_key "pi - clef") runs
      && has_all_results runs "pi - clef" (all_exercise_names false both_languages runs))
complete_keys_exact_example = complete_keys_exact false both_languages runs "pi - clef"

-- A model with no result for rust is complete: its exercise of the same name is one for go.
complete_without_rust :
    contains_name (get_completeness_info false both_languages runs).keys "pi - clef" ≡ true
unfolding get_completeness_info all_exercise_names expected_names insert_all insert_set
    key_exercises complete_keys all_in model_key str_append is_empty
complete_without_rust = refl
