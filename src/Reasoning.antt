-- ===== src/Reasoning.antt =====
-- The levels, formats and mechanisms of reasoning of crates/benchmark-types/src/reasoning.rs. A text
-- is lower-cased by `str::to_lowercase`, which needs the tables of Unicode and is a parameter.
pub mod Patterns
pub mod Globs
pub mod Greedy
pub mod Exact
pub mod Levels
pub mod Registry
pub mod Lookups
pub mod Tests
use Prim.Native.Char.{code}
use llm_benchmark.Common.{
  ℕ, Bool, true, false, String, List, [], ◌∷◌, Option, none, some, if◌then◌else◌, ◌≡◌, ltb, leb,
  str_eq, ◌&&◌, ◌||◌, ap, refl,
}
use llm_benchmark.Text.{ascii_lower}
use llm_benchmark.Json.{Value, string, boolean}
use llm_benchmark.Reasoning.Patterns.{codes, contains, starts_with}

pub data ThinkingLevel : Type 0 where
  off : ThinkingLevel
  minimal : ThinkingLevel
  low : ThinkingLevel
  medium : ThinkingLevel
  high : ThinkingLevel
  xhigh : ThinkingLevel

-- `Display` of a level.
unfoldable pub show_level : ThinkingLevel → String
show_level off = "off"
show_level minimal = "minimal"
show_level low = "low"
show_level medium = "medium"
show_level high = "high"
show_level xhigh = "xhigh"

-- `is_active`.
unfoldable pub is_active : ThinkingLevel → Bool
is_active off = false
is_active _ = true

pub data ThinkingFormat : Type 0 where
  openai : ThinkingFormat
  openrouter : ThinkingFormat
  deepseek : ThinkingFormat
  together : ThinkingFormat
  zai : ThinkingFormat
  qwen : ThinkingFormat
  qwen_chat_template : ThinkingFormat

pub record CompatConfig : Type 0 where
  pub supports_developer_role : Option Bool
  pub supports_reasoning_effort : Option Bool

pub data ReasoningMechanism : Type 0 where
  anthropic_thinking : ReasoningMechanism
  openai_reasoning_effort : ReasoningMechanism
  native_reasoning : ReasoningMechanism
  custom : ReasoningMechanism

pub record ThinkingLevelMap : Type 0 where
  pub map_off : Option Value
  pub map_minimal : Option Value
  pub map_low : Option Value
  pub map_medium : Option Value
  pub map_high : Option Value
  pub map_xhigh : Option Value

pub record ReasoningConfig : Type 0 where
  pub mechanism : ReasoningMechanism
  pub thinking_format : Option ThinkingFormat
  pub thinking_level_map : Option ThinkingLevelMap
  pub compat : Option CompatConfig

abbrev plain : ReasoningMechanism → ReasoningConfig
plain m = record { mechanism = m; thinking_format = none; thinking_level_map = none; compat = none }

-- A map that gives a text for every level.
abbrev texts : String → String → String → String → String → String → ThinkingLevelMap
texts o m l d h x = record {
  map_off = some (string o);
  map_minimal = some (string m);
  map_low = some (string l);
  map_medium = some (string d);
  map_high = some (string h);
  map_xhigh = some (string x);
}

-- `ReasoningConfig::default_for_mechanism`.
unfoldable pub default_for_mechanism : ReasoningMechanism → ReasoningConfig
default_for_mechanism openai_reasoning_effort = record {
  mechanism = openai_reasoning_effort;
  thinking_format = some openai;
  thinking_level_map = some (texts "disabled" "low" "low" "medium" "high" "high");
  compat = none;
}
default_for_mechanism anthropic_thinking = plain anthropic_thinking
default_for_mechanism native_reasoning = plain native_reasoning
default_for_mechanism custom = plain custom

-- `to_ascii_lowercase` and `is_ascii` of a text, by its characters.
unfoldable pub lower_codes : String → List ℕ
unfolding ascii_lower
lower_codes String.[] = []
lower_codes (String.◌∷◌ c s) = ascii_lower (code c) ∷ lower_codes s

unfoldable pub is_ascii : String → Bool
is_ascii String.[] = true
is_ascii (String.◌∷◌ c s) = ltb (code c) 128 && is_ascii s

module _ (to_lowercase : String → String) where
  -- `ThinkingLevel::parse`.
  unfoldable pub parse_level : String → Option ThinkingLevel
  parse_level s =
      let t = to_lowercase s in
      if str_eq t "off"
      then some off
      else if str_eq t "minimal" || str_eq t "min"
      then some minimal
      else if str_eq t "low"
      then some low
      else if str_eq t "medium" || str_eq t "med"
      then some medium
      else if str_eq t "high" || str_eq t "hi"
      then some high
      else if str_eq t "xhigh" || str_eq t "maximum" || str_eq t "max"
      then some xhigh
      else none

  -- `ReasoningMechanism::detect`.
  unfoldable pub detect_mechanism : String → ReasoningMechanism
  unfolding contains starts_with codes
  detect_mechanism model_name =
      let lower = codes (to_lowercase model_name) in
      if contains (codes "claude") lower
        || contains (codes "sonnet") lower
        || contains (codes "opus") lower
        || contains (codes "haiku") lower
      then anthropic_thinking
      else if starts_with (codes "o1") lower
          || starts_with (codes "o3") lower
          || starts_with (codes "o4") lower
      then openai_reasoning_effort
      else if contains (codes "deepseek") lower
          && (contains (codes "r1") lower || contains (codes "chat") lower)
      then native_reasoning
      else custom
