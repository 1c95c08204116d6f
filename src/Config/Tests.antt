-- ===== src/Config/Tests.antt =====
-- The configuration of crates/benchmark-types/src/config/mod.rs at concrete values.
use llm_benchmark.Common.{
  ℕ, ◌+◌, true, false, String, List, [], ◌∷◌, none, some, ◌≡◌, refl, All, inl, inr,
}
use llm_benchmark.Maps.{lookup, AreUnique}
use llm_benchmark.Reasoning.Patterns.{Chars, codes, starts_with, strip_prefix}
use llm_benchmark.Config.{
  DockerConfig, default_docker, default_config, validate, parallelism_too_low, load_or_default,
  content, malformed, not_found, config_of, load_error, parse,
}
use llm_benchmark.Config.Environment.{last_value}
use llm_benchmark.Config.RunDirs.{
  DirEntry, get_results_dir, get_next_run_number, subdir_base_of, sort_languages, join_dashes,
}
use llm_benchmark.Config.EarlyRuns.{IsEarlyRun, early_runs_overwrite_first}

default_valid : validate default_config ≡ none
unfolding validate
default_valid = refl

no_worker : validate (record default_config { parallelism = 0 }) ≡ some (parallelism_too_low 0)
unfolding validate
no_worker = refl

missing_file :
    load_or_default (λ t. malformed t) "config.yml" not_found ≡ config_of default_config false
unfolding load_or_default
missing_file = refl

bad_file :
    load_or_default (λ t. malformed t) "config.yml" (content "?")
    ≡ load_error (parse "config.yml" "?")
unfolding load_or_default
bad_file = refl

abbrev two_entries : DockerConfig
two_entries = record default_docker {
  environment =
      (("ANTHROPIC_MODEL", "clef") ∷ ("LANG", "C") ∷ []) ∷ (("ANTHROPIC_MODEL", "note") ∷ []) ∷ [];
}

two_entries-AreUnique : All AreUnique two_entries.environment
unfolding lookup
two_entries-AreUnique = ((refl, (refl, tt)), ((refl, tt), tt))

last_entry : last_value "ANTHROPIC_MODEL" two_entries.environment ≡ some "note"
unfolding lookup
last_entry = refl

abbrev run_dir : String → DirEntry
run_dir name = record { name = codes name; is_dir = true }

abbrev digit : ℕ → Chars
digit n = (48 + n) ∷ []

abbrev three_runs : List DirEntry
three_runs = run_dir "pi-clef-go" ∷ run_dir "pi-clef-go-r2" ∷ run_dir "codex-clef-go" ∷ []

three_runs_early :
    All (IsEarlyRun (subdir_base_of (codes "pi") (codes "clef") (codes "go" ∷ []))) three_runs
unfolding subdir_base_of sort_languages join_dashes starts_with strip_prefix codes
three_runs_early = (inl (inr refl), (inr (inl (50, refl)), (inr (inr refl), tt)))

early_runs_overwrite_first_example :
    get_results_dir digit three_runs (codes "pi") (codes "clef") (codes "go" ∷ [])
    ≡ some (subdir_base_of (codes "pi") (codes "clef") (codes "go" ∷ []))
early_runs_overwrite_first_example =
    early_runs_overwrite_first digit (codes "pi") (codes "clef") (codes "go" ∷ []) three_runs
      three_runs_early

-- Of a run number the first digit is not read.
second_digit : get_next_run_number (codes "a") (run_dir "a-r47" ∷ []) ≡ some 8
unfolding get_next_run_number codes
second_digit = refl

-- A directory whose name ends after `-r` makes the look for a number panic.
no_digit : get_next_run_number (codes "a") (run_dir "a-r" ∷ []) ≡ none
unfolding get_next_run_number codes
no_digit = refl

languages_sorted :
    subdir_base_of (codes "") (codes "m") (codes "python" ∷ codes "java" ∷ [])
    ≡ codes "unknown-m-java-python"
unfolding subdir_base_of codes
languages_sorted = refl
