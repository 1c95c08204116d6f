-- ===== src/Reasoning/Patterns.antt =====
-- The search in texts and the glob patterns of crates/benchmark-types/src/reasoning.rs. A text is the
-- list of its characters; the byte positions of the source always fall between two of them.
use Prim.Native.Char.{code, len_utf8}
use llm_benchmark.Common.{
  ℕ, ◌+◌, Bool, true, false, String, List, [], ◌∷◌, Option, none, some, if◌then◌else◌, ◌==◌,
  is_some,
}

abbrev pub Chars : Type 0
Chars = List ℕ

unfoldable pub codes : String → Chars
codes String.[] = []
codes (String.◌∷◌ c s) = code c ∷ codes s

-- `len()` of a text: its bytes in UTF-8.
unfoldable pub byte_len : String → ℕ
byte_len String.[] = 0
byte_len (String.◌∷◌ c s) = len_utf8 c + byte_len s

-- `strip_prefix`: what follows the prefix.
unfoldable pub strip_prefix : Chars → Chars → Option Chars
strip_prefix [] t = some t
strip_prefix (c ∷ p) [] = none
strip_prefix (c ∷ p) (d ∷ t) = if c == d then strip_prefix p t else none

unfoldable pub starts_with : Chars → Chars → Bool
unfolding strip_prefix
starts_with p t = is_some (strip_prefix p t)

-- `find`, with what follows the first occurrence.
unfoldable pub find_after : Chars → Chars → Option Chars
unfolding strip_prefix
find_after p [] = strip_prefix p []
find_after p (d ∷ t) = elim (strip_prefix p (d ∷ t)) [
  | some rest ↦ some rest
  | none ↦ find_after p t
]

unfoldable pub contains : Chars → Chars → Bool
unfolding find_after
contains p t = is_some (find_after p t)

-- `==` of two texts.
unfoldable pub chars_eq : Chars → Chars → Bool
chars_eq [] [] = true
chars_eq [] (d ∷ t) = false
chars_eq (c ∷ s) [] = false
chars_eq (c ∷ s) (d ∷ t) = if c == d then chars_eq s t else false

-- `ends_with`.
unfoldable pub ends_with : Chars → Chars → Bool
unfolding chars_eq
ends_with p [] = chars_eq p []
ends_with p (d ∷ t) = if chars_eq p (d ∷ t) then true else ends_with p t

unfoldable pub is_empty_part : Chars → Bool
is_empty_part [] = true
is_empty_part (c ∷ p) = false

-- The first part gets one more character.
unfoldable pub push_head : ℕ → List Chars → List Chars
push_head c [] = (c ∷ []) ∷ []
push_head c (p ∷ ps) = (c ∷ p) ∷ ps

-- `split('*')`.
unfoldable pub split_star : Chars → List Chars
unfolding push_head
split_star [] = [] ∷ []
split_star (c ∷ s) = if c == b'*' then [] ∷ split_star s else push_head c (split_star s)

-- The loop of `pattern_matches` over the parts but the first, at what follows the last match.
unfoldable pub match_parts : List Chars → Chars → Chars → Bool
unfolding is_empty_part ends_with find_after
match_parts [] rest model = true
match_parts (p ∷ []) rest model = if is_empty_part p then true else ends_with p model
match_parts (p ∷ q ∷ ps) rest model =
    if is_empty_part p
    then match_parts (q ∷ ps) rest model
    else elim (find_after p rest) [ some after ↦ match_parts (q ∷ ps) after model | none ↦ false ]

-- The whole loop.
unfoldable pub match_split : List Chars → Chars → Bool
unfolding is_empty_part strip_prefix match_parts
match_split [] model = true
match_split (p ∷ ps) model =
    if is_empty_part p
    then match_parts ps model model
    else elim (strip_prefix p model) [ some after ↦ match_parts ps after model | none ↦ false ]

-- `pattern_matches` of a pattern with a `*`; without one it compares the lower-cased texts.
unfoldable pub pattern_matches : (String → String) → String → String → Bool
unfolding codes split_star match_split chars_eq
pattern_matches to_lowercase pattern model = elim (split_star (codes pattern)) [
  | [] ↦ true
  | part ∷ [] ↦ chars_eq (codes (to_lowercase pattern)) (codes (to_lowercase model))
  | part ∷ next ∷ parts ↦ match_split (part ∷ next ∷ parts) (codes model)
]
