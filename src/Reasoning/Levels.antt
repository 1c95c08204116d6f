-- ===== src/Reasoning/Levels.antt =====
-- The names of the levels of crates/benchmark-types/src/reasoning.rs, written and read.
use text.Mathlib.TextEquality.{Char-path}
use llm_benchmark.Common.{ℕ, true, String, List, ◌∷◌, some, ◌≡◌, refl, ap, ◌∙◌}
use llm_benchmark.Reasoning.{ThinkingLevel, show_level, parse_level, lower_codes, is_ascii}
use llm_benchmark.Reasoning.Patterns.{codes}

-- `to_lowercase` on ASCII texts.
abbrev pub LowersAscii : (String → String) → Type 0
LowersAscii lower = (s : String) → is_ascii s ≡ true → codes (lower s) ≡ lower_codes s

head-eq : {c d : ℕ} {s t : List ℕ} → ◌≡◌ {A = List ℕ} (c ∷ s) (d ∷ t) → c ≡ d
head-eq e = cc

rest-eq : {c d : ℕ} {s t : List ℕ} → ◌≡◌ {A = List ℕ} (c ∷ s) (d ∷ t) → s ≡ t
rest-eq e = cc

codes-eq : (s t : String) → codes s ≡ codes t → s ≡ t
unfolding codes
codes-eq String.[] String.[] e = refl
codes-eq String.[] (String.◌∷◌ d t) e = cc
codes-eq (String.◌∷◌ c s) String.[] e = cc
codes-eq (String.◌∷◌ c s) (String.◌∷◌ d t) e =
    ap (λ x. String.◌∷◌ x s) (Char-path c d (head-eq e))
    ∙ ap (String.◌∷◌ d) (codes-eq s t (rest-eq e))

parse-name :
    (lower : String → String) (l : ThinkingLevel) (s : String)
    → lower s ≡ show_level l
    → parse_level lower s ≡ some l
unfolding parse_level show_level
parse-name lower ThinkingLevel.off s h = rw (parse_level, h) refl
parse-name lower ThinkingLevel.minimal s h = rw (parse_level, h) refl
parse-name lower ThinkingLevel.low s h = rw (parse_level, h) refl
parse-name lower ThinkingLevel.medium s h = rw (parse_level, h) refl
parse-name lower ThinkingLevel.high s h = rw (parse_level, h) refl
parse-name lower ThinkingLevel.xhigh s h = rw (parse_level, h) refl

-- The name of a level, in whatever case it is written, is read as the level.
pub parse-show :
    (lower : String → String)
    → LowersAscii lower
    → (l : ThinkingLevel) (s : String) → is_ascii s ≡ true
    → lower_codes s ≡ codes (show_level l)
    → parse_level lower s ≡ some l
parse-show lower law l s ascii h =
    parse-name lower l s (codes-eq (lower s) (show_level l) (law s ascii ∙ h))
