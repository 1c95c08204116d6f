-- ===== src/Results.antt =====
-- The statistics over the cached results: benchmark-web/src/services/result_service, in
-- result_service.rs, query.rs, statistics.rs and scoring.rs. The cache is the list of its values in
-- the order of an iteration; the parsing of a timestamp is an argument. Counts and sums are exact; the
-- sums of durations, which are floating-point numbers, the rates and the formatting are left out.
pub mod Groups
pub mod Sums
pub mod WallClock
pub mod Completeness
pub mod Complete
pub mod Keys
mod Tests
use llm_benchmark.Common.{
  ℕ, suc, ◌+◌, Bool, true, false, not, String, List, [], ◌∷◌, ◌++◌, Option, none, some,
  if◌then◌else◌, leb, str_eq, any, retain, map, length, ◌&&◌, ◌||◌,
}
use llm_benchmark.Text.{is_empty, str_append}
use llm_benchmark.Maps.{upsert, lookup}
use llm_benchmark.QuickBench.{get_exercises_for_language}
use llm_benchmark.Stats.{TimeInterval, merge_intervals_and_total_duration}

-- The fields of a cached result that statistics read.
pub record CachedResult : Type 0 where
  pub exercise : String
  pub agent : String
  pub language : String
  pub category : String
  pub model : String
  pub total_exercises : ℕ
  pub successful : ℕ
  pub input_tokens : ℕ
  pub output_tokens : ℕ
  pub cached_input_tokens : ℕ
  pub uncached_input_tokens : ℕ
  pub start_time : String
  pub end_time : String

-- The filters of a query.
pub record Filters : Type 0 where
  pub by_language : Option String
  pub by_agent : Option String
  pub by_model : Option String
  pub by_exercise : Option String
  pub quick_only : Bool
  pub by_category : Option String

-- An absent or empty filter matches all.
unfoldable pub matches : String → Option String → Bool
unfolding is_empty
matches cached none = true
matches cached (some f) = is_empty f || str_eq cached f

unfoldable pub matches_filter : Filters → CachedResult → Bool
unfolding matches
matches_filter f r =
    matches r.language f.by_language
    && matches r.agent f.by_agent
    && matches r.model f.by_model
    && matches r.exercise f.by_exercise

unfoldable pub is_quick_bench_exercise : String → String → Bool
unfolding get_exercises_for_language
is_quick_bench_exercise language exercise =
    any (λ e. str_eq e exercise) (get_exercises_for_language language)

-- The filter by category at the head of the loop, where an absent one is empty.
unfoldable pub passes_category : Option String → CachedResult → Bool
unfolding is_empty
passes_category none r = true
passes_category (some c) r = is_empty c || str_eq r.category c

unfoldable pub passes_quick : Bool → CachedResult → Bool
unfolding is_quick_bench_exercise
passes_quick quick r = not quick || is_quick_bench_exercise r.language r.exercise

-- `GroupStats`, without its duration.
pub record GroupStats : Type 0 where
  pub total : ℕ
  pub success : ℕ
  pub input : ℕ
  pub output : ℕ
  pub cached : ℕ
  pub uncached : ℕ

abbrev pub or_zeros : Option GroupStats → GroupStats
or_zeros none = record { total = 0; success = 0; input = 0; output = 0; cached = 0; uncached = 0 }
or_zeros (some g) = g

unfoldable pub add_stats : CachedResult → Option GroupStats → GroupStats
add_stats r o =
    let g = or_zeros o in
    record {
      total = g.total + r.total_exercises;
      success = g.success + r.successful;
      input = g.input + r.input_tokens;
      output = g.output + r.output_tokens;
      cached = g.cached + r.cached_input_tokens;
      uncached = g.uncached + r.uncached_input_tokens;
    }

abbrev pub or_nil : Option (List TimeInterval) → List TimeInterval
or_nil none = []
or_nil (some is) = is

-- The keys of the four groupings.
unfoldable pub model_key : CachedResult → String
unfolding str_append
model_key r = str_append r.agent (str_append " - " r.model)

unfoldable pub category_key : CachedResult → String
unfolding is_empty
category_key r = if is_empty r.category then "polyglot" else r.category

-- One grouping: the sums of each group, and its intervals.
pub record Grouping : Type 0 where
  pub sums : List (String × GroupStats)
  pub walls : List (String × List TimeInterval)

-- The interval of a result with two times in order.
unfoldable pub interval_of : (String → Option ℕ) → CachedResult → List TimeInterval
interval_of parse r = elim (parse r.start_time) [
  | none ↦ []
  | some s ↦ elim (parse r.end_time) [
    | none ↦ []
    | some e ↦ if leb s e then record { start = s; end = e } ∷ [] else []
  ]
]

unfoldable pub add_to :
    (String → Option ℕ) → (CachedResult → String) → CachedResult → Grouping → Grouping
unfolding upsert add_stats interval_of
add_to parse key r g = record {
  sums = upsert (key r) (add_stats r) g.sums;
  walls = upsert (key r) (λ o. or_nil o ++ interval_of parse r) g.walls;
}

-- The variables of the loop.
pub record Tally : Type 0 where
  pub total_runs : ℕ
  pub totals : GroupStats
  pub languages : Grouping
  pub agents : Grouping
  pub models : Grouping
  pub categories : Grouping

abbrev empty_grouping : Grouping
empty_grouping = record { sums = []; walls = [] }

abbrev pub empty_tally : Tally
empty_tally = record {
  total_runs = 0;
  totals = or_zeros none;
  languages = empty_grouping;
  agents = empty_grouping;
  models = empty_grouping;
  categories = empty_grouping;
}

-- The body of the loop for a result that passes its filters.
unfoldable pub add_result : (String → Option ℕ) → CachedResult → Tally → Tally
unfolding add_to add_stats model_key category_key
add_result parse r l = record {
  total_runs = suc l.total_runs;
  totals = add_stats r (some l.totals);
  languages = add_to parse (λ x. x.language) r l.languages;
  agents = add_to parse (λ x. x.agent) r l.agents;
  models = add_to parse model_key r l.models;
  categories = add_to parse category_key r l.categories;
}

unfoldable pub passes : Filters → CachedResult → Bool
unfolding passes_category matches_filter passes_quick
passes f r = passes_category f.by_category r && matches_filter f r && passes_quick f.quick_only r

unfoldable pub accumulate : (String → Option ℕ) → Filters → List CachedResult → Tally → Tally
unfolding passes add_result
accumulate parse f [] l = l
accumulate parse f (r ∷ rs) l =
    if passes f r then accumulate parse f rs (add_result parse r l) else accumulate parse f rs l

-- The filter of the intervals for the wall-clock time of all.
unfoldable pub passes_wall : Filters → CachedResult → Bool
unfolding matches_filter passes_quick
passes_wall f r = matches_filter f r && passes_quick f.quick_only r

unfoldable pub wall_intervals :
    (String → Option ℕ) → Filters → List CachedResult → List TimeInterval
unfolding passes_wall interval_of
wall_intervals parse f [] = []
wall_intervals parse f (r ∷ rs) =
    if passes_wall f r
    then interval_of parse r ++ wall_intervals parse f rs
    else wall_intervals parse f rs

pub record Statistics : Type 0 where
  pub loop : Tally
  pub wall_clock_ms : ℕ

-- `get_statistics`, up to rates, durations and formatting.
unfoldable pub get_statistics : (String → Option ℕ) → Filters → List CachedResult → Statistics
unfolding accumulate wall_intervals merge_intervals_and_total_duration
get_statistics parse f results = record {
  loop = accumulate parse f results empty_tally;
  wall_clock_ms = merge_intervals_and_total_duration (wall_intervals parse f results);
}
