-- ===== src/ModelLoad/Outcomes.antt =====
-- The calls of `ensure_ready` of crates/benchmark-core/src/model_load.rs.
use llm_benchmark.Common.{ℕ, String, Option, some, ◌≡◌}
use llm_benchmark.ModelLoad.{LoadState, Url}
use llm_benchmark.ModelLoad.Gate.{Network, Gate, act_on, ensure_ready, Left}
use llm_benchmark.ModelLoad.Waiting.{seen_at, Justified}

module _ (network : Network) (parse_url : String → Option Url) (gate : Gate) where
  abbrev Returned : ℕ → String → ℕ → Type 0
  Returned fuel model t =
      (left : Left network parse_url gate) × (ensure_ready network parse_url gate fuel model t
        ≡ some left)
      × Justified network parse_url gate model t left

  abbrev Acts : ℕ → String → String → LoadState → ℕ → Type 0
  Acts fuel endpoint model s t =
      gate.endpoint ≡ some endpoint
      → s ≡ (seen_at network parse_url gate endpoint model t).0
      → (left : Left network parse_url gate) × (act_on network parse_url gate fuel endpoint model s
            (seen_at network parse_url gate endpoint model t).1
          ≡ some left)
        × Justified network parse_url gate model t left
