-- ===== src/Suite/Discovery.antt =====
-- The discovery of exercises by `ExerciseRunner`, crates/benchmark-core/src/exercise_runner/mod.rs, its
-- caches, and the files that belong to an exercise. The JSON parser and the lower-casing of a text are
-- arguments; the cache behind its lock is passed on.
use llm_benchmark.Common.{
  Bool, true, false, not, List, [], ◌∷◌, ◌++◌, Option, none, some, if◌then◌else◌, ◌==◌, any, retain,
  ◌&&◌,
}
use llm_benchmark.Ordering.{chars_leb, sort_by}
use llm_benchmark.Reasoning.Patterns.{Chars, strip_prefix, chars_eq, ends_with, starts_with}
use llm_benchmark.Suite.{Bundle, exercise_names, languages}

-- `pov` and `counter`.
abbrev pub pov : Chars
pov = 112 ∷ 111 ∷ 118 ∷ []

abbrev pub deprecated_exercises : List Chars
deprecated_exercises = (99 ∷ 111 ∷ 117 ∷ 110 ∷ 116 ∷ 101 ∷ 114 ∷ []) ∷ []

unfoldable pub is_deprecated : Chars → Bool
unfolding chars_eq
is_deprecated name = any (chars_eq name) deprecated_exercises

-- The order of the names: not `Greater`.
unfoldable pub need_not_follow : Chars → Chars → Bool
unfolding chars_eq chars_leb
need_not_follow a b =
    if chars_eq a pov then false else if chars_eq b pov then true else chars_leb a b

-- The list that the first call for a language makes.
unfoldable pub discover : Bundle → Chars → List Chars
unfolding sort_by need_not_follow is_deprecated exercise_names
discover bundle language =
    sort_by need_not_follow
      (retain (λ name. not (is_deprecated name)) (exercise_names bundle language))

-- The cache: an insertion stands before the older ones.
abbrev pub ExercisesCache : Type 0
ExercisesCache = List (Chars × List Chars)

unfoldable pub cached_exercises : Chars → ExercisesCache → Option (List Chars)
unfolding chars_eq
cached_exercises language [] = none
cached_exercises language ((key, exercises) ∷ cache) =
    if chars_eq key language then some exercises else cached_exercises language cache

abbrev pub or_discover :
    Bundle → Chars → ExercisesCache → Option (List Chars) → List Chars × ExercisesCache
or_discover bundle language cache (some exercises) = (exercises, cache)
or_discover bundle language cache none =
    (discover bundle language, (language, discover bundle language) ∷ cache)

-- `get_exercises_for_language`: the names and the cache after the call.
unfoldable pub get_exercises_for_language :
    Bundle → Chars → ExercisesCache → List Chars × ExercisesCache
unfolding cached_exercises discover
get_exercises_for_language bundle language cache =
    or_discover bundle language cache (cached_exercises language cache)

module _ (to_lowercase : Chars → Chars) where
  abbrev or_sorted : Bundle → Option (List Chars) → List Chars × Option (List Chars)
  or_sorted bundle (some known) = (known, some known)
  or_sorted bundle none =
      let sorted =
        sort_by (λ a b. chars_leb (to_lowercase a) (to_lowercase b)) (languages bundle) in
      (sorted, some sorted)

  -- `get_available_languages`.
  unfoldable pub get_available_languages :
      Bundle → Option (List Chars) → List Chars × Option (List Chars)
  unfolding sort_by chars_leb languages
  get_available_languages bundle cache = or_sorted bundle cache

-- `find`.
unfoldable pub find_first : (Chars → Bool) → List Chars → Option Chars
find_first test [] = none
find_first test (x ∷ xs) = if test x then some x else find_first test xs

-- `java`, and the paths below the root of an exercise.
abbrev pub java : Chars
java = 106 ∷ 97 ∷ 118 ∷ 97 ∷ []

abbrev dot_java : Chars
dot_java = 46 ∷ java

abbrev src_main : Chars
src_main = 115 ∷ 114 ∷ 99 ∷ 47 ∷ 109 ∷ 97 ∷ 105 ∷ 110 ∷ 47 ∷ java ++ 47 ∷ []

abbrev src_test : Chars
src_test = 115 ∷ 114 ∷ 99 ∷ 47 ∷ 116 ∷ 101 ∷ 115 ∷ 116 ∷ 47 ∷ java ++ 47 ∷ []

abbrev test_dot_java : Chars
test_dot_java = 84 ∷ 101 ∷ 115 ∷ 116 ∷ dot_java

abbrev pub meta : Chars
meta = 46 ∷ 109 ∷ 101 ∷ 116 ∷ 97 ∷ []

abbrev reference_java : Chars
reference_java =
    meta
    ++ (47 ∷ 115 ∷ 114 ∷ 99 ∷ 47 ∷ 114 ∷ 101 ∷ 102 ∷ 101 ∷ 114 ∷ 101 ∷ 110 ∷ 99 ∷ 101 ∷ 47 ∷ java)

abbrev is_flat : Chars → Option Chars → Bool
is_flat ending none = false
is_flat ending (some rest) = not (any (λ c. c == 47) rest) && ends_with ending rest

-- `find_source_file`, `find_test_file` and `find_reference_dir`.
unfoldable pub find_source_file : List Chars → Chars → Option Chars
unfolding chars_eq find_first strip_prefix ends_with
find_source_file files language =
    if chars_eq language java
    then find_first (λ f. is_flat dot_java (strip_prefix src_main f)) files
    else none

unfoldable pub find_test_file : List Chars → Chars → Option Chars
unfolding chars_eq find_first strip_prefix ends_with
find_test_file files language =
    if chars_eq language java
    then find_first (λ f. is_flat test_dot_java (strip_prefix src_test f)) files
    else none

unfoldable pub find_reference_dir : List Chars → Chars → Option Chars
unfolding chars_eq starts_with
find_reference_dir files language =
    let dir = if chars_eq language java then reference_java else meta in
    if any (λ f. starts_with (dir ++ 47 ∷ []) f) files then some dir else none
