-- ===== src/Config/Validity.antt =====
-- What `validate` of crates/benchmark-types/src/config/mod.rs accepts.
use llm_benchmark.Common.{◌≤◌, false, none, ◌≡◌, ◌↔◌, arith}
use llm_benchmark.Text.{is_empty}
use llm_benchmark.Config.{Config, validate}

-- The limits that a config keeps.
pub record IsValid (c : Config) : Type 0 where
  has_worker : 1 ≤ c.parallelism
  has_image : is_empty c.docker.image ≡ false
  has_time : 10 ≤ c.docker.timeout
  has_memory : is_empty c.docker.memory ≡ false
  has_load_time : 120 ≤ c.model_load_timeout_secs
  has_results : is_empty c.output.results_dir ≡ false

-- A config passes the validation exactly if it has a parallelism of at least 1, an image, 10 s for a
-- container, a memory limit, 120 s for the loading of a model and a results directory.
pub validate_exact : (c : Config) → (validate c ≡ none) ↔ IsValid c
unfolding validate
validate_exact c = (
  (λ v. record {
    has_worker = ground arith;
    has_image = ground arith;
    has_time = ground arith;
    has_memory = ground arith;
    has_load_time = ground arith;
    has_results = ground arith;
  }),
  (λ v.
      ground (
        arith, v.has_worker, v.has_image, v.has_time, v.has_memory, v.has_load_time, v.has_results,
      )),
)
