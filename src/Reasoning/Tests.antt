-- ===== src/Reasoning/Tests.antt =====
-- The reasoning settings of crates/benchmark-types/src/reasoning.rs at concrete models and patterns.
use Prim.Native.Nat.{compare, Ordering}
use Prim.Native.Char.{Char, char, code, IsScalar}
use llm_benchmark.Common.{
  ℕ, ◌+◌, Bool, true, false, String, [], ◌∷◌, some, ◌≡◌, refl, ap, ◌∙◌, arith, ◌⊎◌, inl, inr, leb,
  ◌&&◌, ◌↔◌,
}
use llm_benchmark.Text.{ascii_lower}
use llm_benchmark.Reasoning.{ThinkingLevel, show_level, parse_level, lower_codes, is_ascii}
use llm_benchmark.Reasoning.Patterns.{
  codes, strip_prefix, ends_with, chars_eq, split_star, push_head, match_parts, match_split,
  pattern_matches, is_empty_part,
}
use llm_benchmark.Reasoning.Registry.{lookup, register_defaults}
use llm_benchmark.Reasoning.Globs.{Glob}
use llm_benchmark.Reasoning.Exact.{pattern_matches-exact}
use llm_benchmark.Reasoning.Lookups.{Found, lookup-Found}
use llm_benchmark.Reasoning.Levels.{LowersAscii, parse-show}

-- A lower-casing of ASCII letters, which leaves the other characters.
scalar : (n : ℕ) → (leb b'A' n && leb n b'Z') ≡ true → IsScalar (n + 32)
scalar n h = rw (below n h) tt
  where
    below : (n : ℕ) → (leb b'A' n && leb n b'Z') ≡ true → compare (n + 32) 55296 ≡ Ordering.lt
    below n h = ground (arith, h)

unfoldable lower_by :
    (c : Char)
    → ((leb b'A' (code c) && leb (code c) b'Z') ≡ true)
      ⊎ ((leb b'A' (code c) && leb (code c) b'Z') ≡ false)
    → Char
lower_by c (inl e) = char (code c + 32) (scalar (code c) e)
lower_by c (inr e) = c

abbrev decided : (b : Bool) → (b ≡ true) ⊎ (b ≡ false)
decided true = inl refl
decided false = inr refl

unfoldable to_lower : String → String
unfolding lower_by
to_lower String.[] = String.[]
to_lower (String.◌∷◌ c s) =
    String.◌∷◌ (lower_by c (decided (leb b'A' (code c) && leb (code c) b'Z'))) (to_lower s)

code-lower_by :
    (c : Char)
    → (d : ((leb b'A' (code c) && leb (code c) b'Z') ≡ true)
        ⊎ ((leb b'A' (code c) && leb (code c) b'Z') ≡ false))
    → code (lower_by c d) ≡ ascii_lower (code c)
unfolding lower_by ascii_lower
code-lower_by c (inl e) = rw e refl
code-lower_by c (inr e) = rw e refl

codes-to_lower : (s : String) → codes (to_lower s) ≡ lower_codes s
unfolding to_lower lower_codes codes
codes-to_lower String.[] = refl
codes-to_lower (String.◌∷◌ c s) =
    ap (λ n. n ∷ codes (to_lower s))
      (code-lower_by c (decided (leb b'A' (code c) && leb (code c) b'Z')))
    ∙ ap (ascii_lower (code c) ∷◌) (codes-to_lower s)

to_lower-LowersAscii : LowersAscii to_lower
to_lower-LowersAscii s h = codes-to_lower s

parse-show_example : parse_level to_lower "XHigh" ≡ some ThinkingLevel.xhigh
unfolding lower_codes codes show_level is_ascii
parse-show_example = parse-show to_lower to_lower-LowersAscii ThinkingLevel.xhigh "XHigh" refl refl

lookup-Found_example :
    Found to_lower "glm53-flash"
      (register_defaults [])
      (lookup to_lower "glm53-flash" (register_defaults []))
lookup-Found_example = lookup-Found to_lower "glm53-flash" (register_defaults [])

pattern_matches-exact_example :
    (pattern_matches to_lower "glm*" "glm53" ≡ true) ↔ Glob (codes "glm*") (codes "glm53")
unfolding codes
pattern_matches-exact_example = pattern_matches-exact to_lower "glm*" "glm53" (codes "glm") refl

-- A text too short for both ends of a pattern matches it, and a capital in a pattern is never matched.
overlap_matches : pattern_matches to_lower "ab*ba" "aba" ≡ true
unfolding pattern_matches codes split_star push_head match_split match_parts is_empty_part
    strip_prefix ends_with chars_eq
overlap_matches = refl

capital_misses : pattern_matches to_lower "Qwen-*" (to_lower "Qwen-7b") ≡ false
unfolding pattern_matches codes split_star push_head match_split match_parts is_empty_part
    strip_prefix to_lower lower_by
capital_misses = refl
