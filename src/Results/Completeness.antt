-- ===== src/Results/Completeness.antt =====
-- `get_completeness_info` of benchmark-web/src/services/result_service/scoring.rs. A hash set is a list
-- without duplicates.
use llm_benchmark.Common.{
  ℕ, Bool, true, false, String, List, [], ◌∷◌, Option, none, some, if◌then◌else◌, ◌&&◌, any, length,
  str_eq,
}
use llm_benchmark.Text.{is_empty}
use llm_benchmark.QuickBench.{get_exercises_for_language}
use llm_benchmark.Results.{CachedResult, model_key}
use llm_benchmark.Maps.{upsert}

-- `HashSet::insert`, `contains` and `is_subset`.
unfoldable pub insert_set : String → List String → List String
insert_set x [] = x ∷ []
insert_set x (y ∷ ys) = if str_eq y x then y ∷ ys else y ∷ insert_set x ys

abbrev pub contains_name : List String → String → Bool
contains_name set x = any (λ y. str_eq y x) set

unfoldable pub all_in : List String → List String → Bool
all_in [] set = true
all_in (x ∷ xs) set = contains_name set x && all_in xs set

unfoldable pub insert_all : List String → List String → List String
unfolding insert_set
insert_all [] set = set
insert_all (x ∷ xs) set = insert_all xs (insert_set x set)

-- The expected exercises by language.
abbrev pub Expected : Type 0
Expected = List (String × List String)

unfoldable pub quick_names : Expected → List String → List String
unfolding insert_all get_exercises_for_language
quick_names [] set = set
quick_names ((lang, _) ∷ expected) set =
    quick_names expected (insert_all (get_exercises_for_language lang) set)

unfoldable pub expected_names : Expected → List String → List String
unfolding insert_all
expected_names [] set = set
expected_names ((_, exercises) ∷ expected) set = expected_names expected (insert_all exercises set)

unfoldable pub discovered_names : List CachedResult → List String → List String
unfolding insert_set is_empty
discovered_names [] set = set
discovered_names (r ∷ rs) set =
    discovered_names rs (if is_empty r.exercise then set else insert_set r.exercise set)

-- All names that a complete run has results for.
unfoldable pub all_exercise_names : Bool → Option Expected → List CachedResult → List String
unfolding quick_names expected_names discovered_names
all_exercise_names true none results = []
all_exercise_names true (some expected) results = quick_names expected []
all_exercise_names false none results = discovered_names results []
all_exercise_names false (some expected) results = expected_names expected []

abbrev pub or_empty_set : Option (List String) → List String
or_empty_set none = []
or_empty_set (some s) = s

-- The exercises with results, by agent and model.
unfoldable pub key_exercises :
    List CachedResult → List (String × List String) → List (String × List String)
unfolding is_empty upsert insert_set model_key
key_exercises [] m = m
key_exercises (r ∷ rs) m = key_exercises rs (
    if is_empty r.exercise
    then m
    else upsert (model_key r) (λ o. insert_set r.exercise (or_empty_set o)) m)

unfoldable pub complete_keys : List String → List (String × List String) → List String
unfolding all_in
complete_keys names [] = []
complete_keys names ((k, set) ∷ m) =
    if all_in names set then k ∷ complete_keys names m else complete_keys names m

pub record CompletenessInfo : Type 0 where
  pub total_exercises : ℕ
  pub keys : List String

unfoldable pub get_completeness_info : Bool → Option Expected → List CachedResult → CompletenessInfo
unfolding all_exercise_names key_exercises complete_keys
get_completeness_info quick expected results =
    let names = all_exercise_names quick expected results in
    record { total_exercises = length names; keys = complete_keys names (key_exercises results []) }
