-- ===== src/Text.antt =====
-- The text functions of Rust's standard library that the program uses, over native strings: `trim`,
-- the first line of `split('\n')`, `starts_with` of a character, `eq_ignore_ascii_case`.
use Prim.Native.Char.{code}
use llm_benchmark.Common.{
  ℕ, ◌+◌, Bool, true, false, String, List, [], ◌∷◌, if◌then◌else◌, leb, ◌==◌, ◌&&◌, ◌||◌,
}

-- `char::is_whitespace`: the code points with the property White_Space.
unfoldable pub is_whitespace : ℕ → Bool
is_whitespace c =
    (leb 9 c && leb c 13)
    || c == 32
    || c == 0x85
    || c == 0xA0
    || c == 0x1680
    || (leb 0x2000 c && leb c 0x200A)
    || c == 0x2028
    || c == 0x2029
    || c == 0x202F
    || c == 0x205F
    || c == 0x3000

is_empty_text : String → Bool
is_empty_text String.[] = true
is_empty_text (String.◌∷◌ c s) = false

trim_start : String → String
trim_start String.[] = String.[]
trim_start (String.◌∷◌ c s) = if is_whitespace (code c) then trim_start s else String.◌∷◌ c s

trim_end : String → String
trim_end String.[] = String.[]
trim_end (String.◌∷◌ c s) =
    let rest = trim_end s in
    if is_empty_text rest && is_whitespace (code c) then String.[] else String.◌∷◌ c rest

-- `str::trim`.
unfoldable pub trim : String → String
unfolding trim_start trim_end is_whitespace is_empty_text
trim s = trim_end (trim_start s)

-- `s.is_empty()`.
unfoldable pub is_empty : String → Bool
unfolding is_empty_text
is_empty s = is_empty_text s

-- `split('\n').next()`: what stands before the first line feed.
unfoldable pub first_line : String → String
first_line String.[] = String.[]
first_line (String.◌∷◌ c s) = if code c == 10 then String.[] else String.◌∷◌ c (first_line s)

-- `starts_with('{')`.
unfoldable pub starts_with_brace : String → Bool
starts_with_brace String.[] = false
starts_with_brace (String.◌∷◌ c s) = code c == b'{'

-- `to_ascii_lowercase` of one character.
unfoldable pub ascii_lower : ℕ → ℕ
ascii_lower c = if leb b'A' c && leb c b'Z' then c + 32 else c

-- `eq_ignore_ascii_case`.
unfoldable pub eq_ignore_ascii_case : String → String → Bool
unfolding ascii_lower
eq_ignore_ascii_case String.[] String.[] = true
eq_ignore_ascii_case String.[] (String.◌∷◌ d t) = false
eq_ignore_ascii_case (String.◌∷◌ c s) String.[] = false
eq_ignore_ascii_case (String.◌∷◌ c s) (String.◌∷◌ d t) =
    ascii_lower (code c) == ascii_lower (code d) && eq_ignore_ascii_case s t

-- One text after another.
unfoldable pub str_append : String → String → String
str_append String.[] t = t
str_append (String.◌∷◌ c s) t = String.◌∷◌ c (str_append s t)

unfoldable pub starts_with_lf : String → Bool
starts_with_lf String.[] = false
starts_with_lf (String.◌∷◌ c s) = code c == 10

unfoldable pub push_first : String → List String → List String
unfolding str_append
push_first c [] = c ∷ []
push_first c (l ∷ ls) = str_append c l ∷ ls

-- `str::lines`: without the line feeds, and without the carriage return before one.
unfoldable pub lines : String → List String
unfolding starts_with_lf push_first
lines String.[] = []
lines (String.◌∷◌ c s) =
    let rest = lines s in
    if code c == 10
    then String.[] ∷ rest
    else if code c == 13 && starts_with_lf s
    then rest
    else push_first (String.◌∷◌ c String.[]) rest
