-- ===== src/Suite.antt =====
-- The exercise suite: crates/benchmark-exercises/src/lib.rs, whose bundle of files is the list of their
-- paths and contents in the order of `Exercises::iter`, and the default of
-- crates/benchmark-types/src/exercise_source.rs. Texts are lists of bytes.
pub mod Listing
pub mod Discovery
pub mod Building
pub mod Names
pub mod Stream
pub mod Counts
pub mod Runs
mod Tests
use llm_benchmark.Common.{
  ℕ, Bool, true, false, not, List, [], ◌∷◌, ◌++◌, Option, none, some, if◌then◌else◌, ◌==◌, map,
}
use llm_benchmark.Json.{◌>>=◌}
use llm_benchmark.Ordering.{chars_leb, sort_by}
use llm_benchmark.Reasoning.Patterns.{Chars, codes, strip_prefix, chars_eq, is_empty_part}

-- The embedded files by their paths in the bundle.
abbrev pub Bundle : Type 0
Bundle = List (Chars × Chars)

-- `exercises/practice/`.
abbrev pub practice : Chars
practice =
    101 ∷ 120 ∷ 101 ∷ 114 ∷ 99 ∷ 105 ∷ 115 ∷ 101 ∷ 115 ∷ 47 ∷ 112 ∷ 114 ∷ 97 ∷ 99 ∷ 116 ∷ 105 ∷ 99
    ∷ 101 ∷ 47 ∷ []

-- `split('/').next()`.
unfoldable pub first_segment : Chars → Chars
first_segment [] = []
first_segment (c ∷ s) = let rest = first_segment s in if c == 47 then [] else c ∷ rest

-- `filter(|segment| !segment.is_empty())`.
unfoldable pub unless_empty : Chars → Option Chars
unless_empty [] = none
unless_empty (c ∷ s) = some (c ∷ s)

unfoldable pub language_of : Chars → Option Chars
unfolding first_segment unless_empty
language_of path = unless_empty (first_segment path)

unfoldable pub exercise_of : Chars → Chars → Option Chars
unfolding first_segment unless_empty strip_prefix
exercise_of path language =
    strip_prefix (language ++ 47 ∷ practice) path >>= λ rest. unless_empty (first_segment rest)

unfoldable pub exercise_prefix : Chars → Chars → Chars
exercise_prefix language exercise = (language ++ 47 ∷ practice) ++ (exercise ++ 47 ∷ [])

unfoldable pub filter_map {ℓ κ} : {A : Type ℓ} {B : Type κ} → (A → Option B) → List A → List B
filter_map f [] = []
filter_map f (x ∷ xs) = let rest = filter_map f xs in elim (f x) [ some y ↦ y ∷ rest | none ↦ rest ]

-- `dedup`: of equal neighbours one stays.
unfoldable pub keep_new : Chars → List Chars → List Chars
unfolding chars_eq
keep_new x [] = x ∷ []
keep_new x (y ∷ ys) = if chars_eq x y then y ∷ ys else x ∷ y ∷ ys

unfoldable pub dedup : List Chars → List Chars
unfolding keep_new
dedup [] = []
dedup (x ∷ xs) = keep_new x (dedup xs)

-- `Exercises::get`.
unfoldable pub get_file : Bundle → Chars → Option Chars
unfolding chars_eq
get_file [] key = none
get_file ((path, content) ∷ files) key =
    if chars_eq path key then some content else get_file files key

-- `!is_empty()`.
unfoldable pub is_there : List Chars → Bool
is_there [] = false
is_there (x ∷ xs) = true

module _ (bundle : Bundle) where
  unfoldable pub languages : List Chars
  unfolding sort_by dedup filter_map language_of
  languages = dedup (sort_by chars_leb (filter_map (λ file. language_of file.0) bundle))

  unfoldable pub exercise_names : Chars → List Chars
  unfolding sort_by dedup filter_map exercise_of
  exercise_names language =
      dedup (sort_by chars_leb (filter_map (λ file. exercise_of file.0 language) bundle))

  unfoldable pub list_files : Chars → Chars → List Chars
  unfolding sort_by filter_map exercise_prefix strip_prefix
  list_files language exercise =
      sort_by chars_leb
        (filter_map (λ file. strip_prefix (exercise_prefix language exercise) file.0) bundle)

  -- `read`.
  unfoldable pub read_file : Chars → Chars → Chars → Option Chars
  unfolding get_file exercise_prefix
  read_file language exercise relative =
      get_file bundle (exercise_prefix language exercise ++ relative)

  -- The default `has_exercise`.
  unfoldable pub has_exercise : Chars → Chars → Bool
  unfolding list_files is_there
  has_exercise language exercise = is_there (list_files language exercise)
