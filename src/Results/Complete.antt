-- ===== src/Results/Complete.antt =====
-- The keys of benchmark-web/src/services/result_service/scoring.rs that count as complete.
use llm_benchmark.Common.{
  Bool, true, false, not, String, List, [], ◌∷◌, some, if◌then◌else◌, ◌≡◌, refl, ap, ◌∙◌, ◌&&◌, any,
  is_some, str_eq, eq_iff, arith, Bool-cases, inl, inr, str-cases,
}
use llm_benchmark.Text.{is_empty}
use llm_benchmark.Results.{CachedResult, model_key}
use llm_benchmark.Maps.{upsert, lookup, lookup-upsert}
use llm_benchmark.Results.Completeness.{insert_set, contains_name, or_empty_set, key_exercises}

abbrev pub either : Bool → Bool → Bool
either true b = true
either false b = b

-- The result is one of an exercise with a name, for the agent and the model of the key.
abbrev pub has_key : String → CachedResult → Bool
has_key k r = not (is_empty r.exercise) && str_eq (model_key r) k

-- Some result of the key is for an exercise of this name.
abbrev pub has_result : List CachedResult → String → String → Bool
has_result rs k name = any (λ r. has_key k r && str_eq r.exercise name) rs

abbrev pub has_all_results : List CachedResult → String → List String → Bool
has_all_results rs k [] = true
has_all_results rs k (x ∷ xs) = has_result rs k x && has_all_results rs k xs

contains-insert_set :
    (x y : String) (s : List String)
    → contains_name (insert_set x s) y ≡ either (contains_name s y) (str_eq x y)
unfolding insert_set
contains-insert_set x y [] = ground arith
contains-insert_set x y (z ∷ s) =
    ground (arith, eq_iff z x, eq_iff x y, eq_iff z y, contains-insert_set x y s)

abbrev pub set_of : String → List (String × List String) → List String
set_of k m = or_empty_set (lookup k m)

either_assoc : (a b c : Bool) → either (either a b) c ≡ either a (either b c)
either_assoc true b c = refl
either_assoc false b c = refl

either_any : (a b : Bool) → either a b ≡ (if a then true else b)
either_any true b = refl
either_any false b = refl

pub either-false : (b : Bool) → b ≡ either b false
either-false true = refl
either-false false = refl

either-true : (b : Bool) → true ≡ either b true
either-true true = refl
either-true false = refl

unfoldable pub add_exercise :
    CachedResult → List (String × List String) → List (String × List String)
add_exercise r m = upsert (model_key r) (λ o. insert_set r.exercise (or_empty_set o)) m

-- The set of a key, and whether there is one, after one more result with a name.
set_of-add :
    (k : String) (r : CachedResult) (m : List (String × List String))
    → lookup k (add_exercise r m)
      ≡ (if str_eq (model_key r) k then some (insert_set r.exercise (set_of k m)) else lookup k m)
unfolding add_exercise
set_of-add k r m = elim (str-cases (model_key r) k) [
  | inl (same, e) ↦
      rw (lookup-upsert k (model_key r) (λ o. insert_set r.exercise (or_empty_set o)) m, e, same)
        refl
  | inr (_, e) ↦
      rw (lookup-upsert k (model_key r) (λ o. insert_set r.exercise (or_empty_set o)) m, e) refl
]

contains-add :
    (k name : String) (r : CachedResult) (m : List (String × List String))
    → contains_name (set_of k (add_exercise r m)) name
      ≡ either (contains_name (set_of k m) name) (str_eq (model_key r) k && str_eq r.exercise name)
contains-add k name r m = elim (Bool-cases (str_eq (model_key r) k)) [
  | inl e ↦ rw (set_of-add k r m, e) (contains-insert_set r.exercise name (set_of k m))
  | inr e ↦ rw (set_of-add k r m, e) (either-false (contains_name (set_of k m) name))
]

is_some-add :
    (k : String) (r : CachedResult) (m : List (String × List String))
    → is_some (lookup k (add_exercise r m)) ≡ either (is_some (lookup k m)) (str_eq (model_key r) k)
is_some-add k r m = elim (Bool-cases (str_eq (model_key r) k)) [
  | inl e ↦ rw (set_of-add k r m, e) (either-true (is_some (lookup k m)))
  | inr e ↦ rw (set_of-add k r m, e) (either-false (is_some (lookup k m)))
]

-- A set of the map has the names of its key's results.
pub contains-key_exercises :
    (k name : String) (rs : List CachedResult) (m : List (String × List String))
    → contains_name (set_of k (key_exercises rs m)) name
      ≡ either (contains_name (set_of k m) name) (has_result rs k name)
unfolding key_exercises add_exercise
contains-key_exercises k name [] m = either-false (contains_name (set_of k m) name)
contains-key_exercises k name (r ∷ rs) m = elim (Bool-cases (is_empty r.exercise)) [
  | inl e ↦ rw (key_exercises, e) (contains-key_exercises k name rs m)
  | inr e ↦
      rw (key_exercises, e)
        (contains-key_exercises k name rs (add_exercise r m)
          ∙ (ap (λ b. either b (has_result rs k name)) (contains-add k name r m)
              ∙ (either_assoc (contains_name (set_of k m) name)
                    (str_eq (model_key r) k && str_eq r.exercise name) (has_result rs k name)
                  ∙ ap (either (contains_name (set_of k m) name)) (
                      either_any (str_eq (model_key r) k && str_eq r.exercise name)
                        (has_result rs k name)))))
]

pub is_some-key_exercises :
    (k : String) (rs : List CachedResult) (m : List (String × List String))
    → is_some (lookup k (key_exercises rs m)) ≡ either (is_some (lookup k m)) (any (has_key k) rs)
unfolding key_exercises add_exercise
is_some-key_exercises k [] m = either-false (is_some (lookup k m))
is_some-key_exercises k (r ∷ rs) m = elim (Bool-cases (is_empty r.exercise)) [
  | inl e ↦ rw (key_exercises, e) (is_some-key_exercises k rs m)
  | inr e ↦
      rw (key_exercises, e)
        (is_some-key_exercises k rs (add_exercise r m)
          ∙ (ap (λ b. either b (any (has_key k) rs)) (is_some-add k r m)
              ∙ (either_assoc (is_some (lookup k m)) (str_eq (model_key r) k) (any (has_key k) rs)
                  ∙ ap (either (is_some (lookup k m)))
                      (either_any (str_eq (model_key r) k) (any (has_key k) rs)))))
]
