-- ===== src/Reasoning/Registry.antt =====
-- `ReasoningRegistry` of crates/benchmark-types/src/reasoning.rs: its entries, with the latest first,
-- and the look-up of a model. The registry behind its lock is the list that the functions pass on.
use llm_benchmark.Common.{
  ℕ, Bool, true, false, String, List, [], ◌∷◌, Option, none, some, if◌then◌else◌, str_eq, ltb, ◌&&◌,
  ◌||◌,
}
use llm_benchmark.Json.{boolean}
use llm_benchmark.Reasoning.{
  ReasoningConfig, ReasoningMechanism, anthropic_thinking, openai_reasoning_effort, custom, openai,
  qwen, ThinkingLevelMap, CompatConfig, plain, texts, detect_mechanism, default_for_mechanism,
}
use llm_benchmark.Reasoning.Patterns.{codes, contains, byte_len, pattern_matches}

pub record RegisteredEntry : Type 0 where
  pub pattern : String
  pub config : ReasoningConfig

-- `register`: at the front.
unfoldable pub register : String → ReasoningConfig → List RegisteredEntry → List RegisteredEntry
register p c entries = record { pattern = p; config = c } ∷ entries

module _ (to_lowercase : String → String) where
  -- The test of the first pass.
  unfoldable pub is_exact : String → RegisteredEntry → Bool
  is_exact model e = str_eq e.pattern model || str_eq (to_lowercase e.pattern) (to_lowercase model)

  -- The first pass.
  unfoldable pub find_exact : String → List RegisteredEntry → Option ReasoningConfig
  unfolding is_exact
  find_exact model [] = none
  find_exact model (e ∷ es) = if is_exact model e then some e.config else find_exact model es

  -- The test of the second pass.
  unfoldable pub is_glob_match : String → RegisteredEntry → Bool
  unfolding contains codes pattern_matches
  is_glob_match model e =
      contains (codes "*") (codes e.pattern)
      && pattern_matches to_lowercase e.pattern (to_lowercase model)

  -- One step of the second pass, over the best match so far and its specificity.
  unfoldable pub better :
      String → RegisteredEntry → Option (RegisteredEntry × ℕ) → Option (RegisteredEntry × ℕ)
  unfolding is_glob_match byte_len
  better model e none = if is_glob_match model e then some (e, byte_len e.pattern) else none
  better model e (some (b, n)) =
      if is_glob_match model e && ltb n (byte_len e.pattern)
      then some (e, byte_len e.pattern)
      else some (b, n)

  unfoldable pub best_match :
      String → Option (RegisteredEntry × ℕ) → List RegisteredEntry → Option (RegisteredEntry × ℕ)
  unfolding better
  best_match model best [] = best
  best_match model best (e ∷ es) = best_match model (better model e best) es

  abbrev pub config_of : Option (RegisteredEntry × ℕ) → Option ReasoningConfig
  config_of none = none
  config_of (some (e, n)) = some e.config

  -- `lookup`.
  unfoldable pub lookup : String → List RegisteredEntry → Option ReasoningConfig
  unfolding find_exact best_match
  lookup model es = elim (find_exact model es) [
    | some c ↦ some c
    | none ↦ config_of (best_match model none es)
  ]

  -- `get_for_model`.
  unfoldable pub get_for_model : String → List RegisteredEntry → ReasoningConfig
  unfolding lookup detect_mechanism default_for_mechanism
  get_for_model model es = elim (lookup model es) [
    | some c ↦ c
    | none ↦ default_for_mechanism (detect_mechanism to_lowercase model)
  ]

-- What several of the built-in entries share.
abbrev effort : ReasoningMechanism → ThinkingLevelMap → Option CompatConfig → ReasoningConfig
effort m levels c = record {
  mechanism = m;
  thinking_format = some openai;
  thinking_level_map = some levels;
  compat = c;
}

abbrev supported : Option CompatConfig
supported = some (record { supports_developer_role = none; supports_reasoning_effort = some true })

abbrev flags : ThinkingLevelMap
flags = record {
  map_off = some (boolean false);
  map_minimal = some (boolean true);
  map_low = some (boolean true);
  map_medium = some (boolean true);
  map_high = some (boolean true);
  map_xhigh = some (boolean true);
}

-- `register_defaults`, the first registration innermost.
unfoldable pub register_defaults : List RegisteredEntry → List RegisteredEntry
unfolding register
register_defaults es =
    let claude = register "claude-*" (plain anthropic_thinking) es in
    let sonnet = register "sonnet" (plain anthropic_thinking) claude in
    let opus = register "opus" (plain anthropic_thinking) sonnet in
    let haiku = register "haiku" (plain anthropic_thinking) opus in
    let o_levels = texts "disabled" "low" "low" "medium" "high" "high" in
    let o3 = register "o3-*" (effort openai_reasoning_effort o_levels none) haiku in
    let o1 = register "o1-*" (effort openai_reasoning_effort o_levels none) o3 in
    let qwen3 =
      register "qwen3-*"
        (record {
          mechanism = custom;
          thinking_format = some qwen;
          thinking_level_map = some flags;
          compat = none;
        })
        o1 in
    let ds_levels = texts "none" "high" "high" "high" "high" "max" in
    let ds4 = register "ds4-*" (effort custom ds_levels supported) qwen3 in
    let flash = register "deepseek-v4-flash-0731" (effort custom ds_levels supported) ds4 in
    register "glm*" (effort custom (texts "low" "low" "low" "high" "max" "max") supported) flash
