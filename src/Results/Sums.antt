-- ===== src/Results/Sums.antt =====
-- The numbers of `get_statistics` in benchmark-web/src/services/result_service/statistics.rs.
use llm_benchmark.Common.{ℕ, Bool, String, List, [], Option, ◌≡◌, refl, arith}
use llm_benchmark.Results.{
  CachedResult, Filters, GroupStats, add_stats, Grouping, add_to, Tally, empty_tally, add_result,
  accumulate, model_key, category_key, get_statistics,
}
use llm_benchmark.Maps.{sum_values}
use llm_benchmark.Results.Groups.{sum_of, IsMeasure, sum-accumulate, totals-accumulate}

-- The six numbers are the sums over the results that pass the test.
pub record AreSums (test : CachedResult → Bool) (rs : List CachedResult) (g : GroupStats)
    : Type 0 where
  pub totals : g.total ≡ sum_of test (λ r. r.total_exercises) rs
  pub successes : g.success ≡ sum_of test (λ r. r.successful) rs
  pub inputs : g.input ≡ sum_of test (λ r. r.input_tokens) rs
  pub outputs : g.output ≡ sum_of test (λ r. r.output_tokens) rs
  pub cacheds : g.cached ≡ sum_of test (λ r. r.cached_input_tokens) rs
  pub uncacheds : g.uncached ≡ sum_of test (λ r. r.uncached_input_tokens) rs

-- The six numbers are the sums over all groups.
pub record AddUp (groups : List (String × GroupStats)) (g : GroupStats) : Type 0 where
  pub totals : sum_values (λ x. x.total) groups ≡ g.total
  pub successes : sum_values (λ x. x.success) groups ≡ g.success
  pub inputs : sum_values (λ x. x.input) groups ≡ g.input
  pub outputs : sum_values (λ x. x.output) groups ≡ g.output
  pub cacheds : sum_values (λ x. x.cached) groups ≡ g.cached
  pub uncacheds : sum_values (λ x. x.uncached) groups ≡ g.uncached

total-IsMeasure : IsMeasure (λ g. g.total) (λ r. r.total_exercises)
unfolding add_stats
total-IsMeasure = (refl, (λ r o. refl))

success-IsMeasure : IsMeasure (λ g. g.success) (λ r. r.successful)
unfolding add_stats
success-IsMeasure = (refl, (λ r o. refl))

input-IsMeasure : IsMeasure (λ g. g.input) (λ r. r.input_tokens)
unfolding add_stats
input-IsMeasure = (refl, (λ r o. refl))

output-IsMeasure : IsMeasure (λ g. g.output) (λ r. r.output_tokens)
unfolding add_stats
output-IsMeasure = (refl, (λ r o. refl))

cached-IsMeasure : IsMeasure (λ g. g.cached) (λ r. r.cached_input_tokens)
unfolding add_stats
cached-IsMeasure = (refl, (λ r o. refl))

uncached-IsMeasure : IsMeasure (λ g. g.uncached) (λ r. r.uncached_input_tokens)
unfolding add_stats
uncached-IsMeasure = (refl, (λ r o. refl))

module _ (parse : String → Option ℕ) (f : Filters) (rs : List CachedResult) where
  module _ (key : CachedResult → String) (part : Tally → Grouping)
      (adds : (r : CachedResult) (l : Tally)
        → part (add_result parse r l) ≡ add_to parse key r (part l))
      (starts : (part empty_tally).sums ≡ []) where
    groups-sum :
        (m : GroupStats → ℕ) (n : CachedResult → ℕ)
        → IsMeasure m n
        → sum_values m (part (accumulate parse f rs empty_tally)).sums
          ≡ m (accumulate parse f rs empty_tally).totals
    groups-sum m n measure =
        let parts : sum_values m (part empty_tally).sums ≡ 0 = rw starts refl in
        omega (
          arith,
          parts,
          measure.0,
          sum-accumulate parse f m n measure key part adds rs empty_tally,
          totals-accumulate parse f m n measure rs empty_tally,
        )

    groups-AddUp :
        AddUp
          (part (accumulate parse f rs empty_tally)).sums
          (accumulate parse f rs empty_tally).totals
    groups-AddUp = record {
      totals = groups-sum (λ g. g.total) (λ r. r.total_exercises) total-IsMeasure;
      successes = groups-sum (λ g. g.success) (λ r. r.successful) success-IsMeasure;
      inputs = groups-sum (λ g. g.input) (λ r. r.input_tokens) input-IsMeasure;
      outputs = groups-sum (λ g. g.output) (λ r. r.output_tokens) output-IsMeasure;
      cacheds = groups-sum (λ g. g.cached) (λ r. r.cached_input_tokens) cached-IsMeasure;
      uncacheds = groups-sum (λ g. g.uncached) (λ r. r.uncached_input_tokens) uncached-IsMeasure;
    }

  -- In each of the four groupings the six numbers of all groups add up to those of the whole.
  pub statistics-AddUp :
      let stats = (get_statistics parse f rs).loop in
      AddUp stats.languages.sums stats.totals
      × AddUp stats.agents.sums stats.totals
      × AddUp stats.models.sums stats.totals
      × AddUp stats.categories.sums stats.totals
  unfolding get_statistics add_result
  statistics-AddUp = (
    groups-AddUp (λ r. r.language) (λ l. l.languages) (λ r l. refl) refl,
    groups-AddUp (λ r. r.agent) (λ l. l.agents) (λ r l. refl) refl,
    groups-AddUp model_key (λ l. l.models) (λ r l. refl) refl,
    groups-AddUp category_key (λ l. l.categories) (λ r l. refl) refl,
  )
