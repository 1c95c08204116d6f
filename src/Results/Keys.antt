-- ===== src/Results/Keys.antt =====
-- The keys that `get_completeness_info` of benchmark-web/src/services/result_service/scoring.rs lists.
use llm_benchmark.Common.{
  Bool, false, String, List, [], ◌∷◌, Option, ◌≡◌, refl, sym, ◌∙◌, ◌&&◌, any, is_some, str_eq,
  Bool-cases, inl, inr, str-cases, not_both,
}
use llm_benchmark.Text.{is_empty}
use llm_benchmark.Results.{CachedResult, model_key}
use llm_benchmark.Maps.{lookup, AreUnique, upsert-AreUnique}
use llm_benchmark.Results.Complete.{
  has_key, has_result, has_all_results, set_of, add_exercise, contains-key_exercises,
  is_some-key_exercises,
}
use llm_benchmark.Results.Completeness.{
  insert_set, contains_name, all_in, or_empty_set, key_exercises, complete_keys, all_exercise_names,
  Expected, get_completeness_info,
}

key_exercises-AreUnique :
    (rs : List CachedResult) (m : List (String × List String))
    → AreUnique m
    → AreUnique (key_exercises rs m)
unfolding key_exercises add_exercise
key_exercises-AreUnique [] m h = h
key_exercises-AreUnique (r ∷ rs) m h = elim (Bool-cases (is_empty r.exercise)) [
  | inl e ↦ rw (key_exercises, e) (key_exercises-AreUnique rs m h)
  | inr e ↦
      rw (key_exercises, e)
        (key_exercises-AreUnique rs (add_exercise r m)
          (upsert-AreUnique (model_key r) (λ o. insert_set r.exercise (or_empty_set o)) m h))
]

absent :
    (k : String) (names : List String) (m : List (String × List String))
    → is_some (lookup k m) ≡ false
    → contains_name (complete_keys names m) k ≡ false
unfolding complete_keys lookup
absent k names [] h = refl
absent k names ((j, s) ∷ m) h = elim (Bool-cases (str_eq j k)) [
  | inl e ↦ absurd (not_both (rw (lookup, e) at h) refl)
  | inr e ↦ elim (Bool-cases (all_in names s)) [
    | inl q ↦ rw (complete_keys, q, e) (absent k names m (rw (lookup, e) at h))
    | inr q ↦ rw (complete_keys, q) (absent k names m (rw (lookup, e) at h))
  ]
]

complete_keys-set_of :
    (k : String) (names : List String) (m : List (String × List String))
    → AreUnique m
    → contains_name (complete_keys names m) k ≡ (is_some (lookup k m) && all_in names (set_of k m))
unfolding complete_keys lookup
complete_keys-set_of k names [] h = refl
complete_keys-set_of k names ((j, s) ∷ m) h = elim (str-cases j k) [
  | inl (same, e) ↦ elim (Bool-cases (all_in names s)) [
    | inl q ↦ rw (complete_keys, lookup, q, e) (sym q)
    | inr q ↦ rw (complete_keys, lookup, q, e) (absent k names m (rw same at h.0) ∙ sym q)
  ]
  | inr (_, e) ↦ elim (Bool-cases (all_in names s)) [
    | inl q ↦ rw (complete_keys, lookup, q, e) (complete_keys-set_of k names m h.1)
    | inr q ↦ rw (complete_keys, lookup, q, e) (complete_keys-set_of k names m h.1)
  ]
]

all_in-key_exercises :
    (k : String) (names : List String) (rs : List CachedResult)
    → all_in names (set_of k (key_exercises rs [])) ≡ has_all_results rs k names
unfolding all_in lookup
all_in-key_exercises k [] rs = refl
all_in-key_exercises k (x ∷ names) rs =
    let one : contains_name (set_of k (key_exercises rs [])) x ≡ has_result rs k x =
      contains-key_exercises k x rs [] in
    rw (one, all_in-key_exercises k names rs) refl

-- A key counts as complete exactly if it has a result for an exercise with a name, and for each
-- expected name a result for an exercise of this name, in whatever language.
pub complete_keys_exact :
    (quick : Bool) (expected : Option Expected) (rs : List CachedResult) (k : String)
    → contains_name (get_completeness_info quick expected rs).keys k
      ≡ (any (has_key k) rs && has_all_results rs k (all_exercise_names quick expected rs))
unfolding get_completeness_info lookup
complete_keys_exact quick expected rs k =
    let names = all_exercise_names quick expected rs in
    complete_keys-set_of k names (key_exercises rs []) (key_exercises-AreUnique rs [] tt)
    ∙ rw (is_some-key_exercises k rs [], all_in-key_exercises k names rs) refl
