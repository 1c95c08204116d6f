-- ===== src/Suite/Names.antt =====
-- What `ExerciseRunner`, crates/benchmark-core/src/exercise_runner/mod.rs, discovers.
use llm_benchmark.Common.{
  ℕ, Bool, true, false, not, List, [], ◌∷◌, Option, some, if◌then◌else◌, ◌==◌, any, retain, map,
  ◌≡◌, refl, ◌∙◌, ap, sym, Bool-cases, Option-cases, inl, inr, ◌&&◌, ◌||◌, arith, not_both, is_some,
}
use llm_benchmark.Ordering.{
  chars_leb, sort_by, IsOrdered, sort_by-IsOrdered, any-sort_by, map-sort_by, chars_leb_total,
  chars_leb_trans,
}
use llm_benchmark.Reasoning.Patterns.{Chars, chars_eq}
use llm_benchmark.Suite.{Bundle, exercise_names, has_exercise}
use llm_benchmark.Suite.Listing.{contains_chars, listed_exactly, has_plain_file}
use llm_benchmark.Suite.Discovery.{
  pov, is_deprecated, need_not_follow, discover, ExercisesCache, cached_exercises,
  get_exercises_for_language,
}
use llm_benchmark.Suite.Building.{ExerciseFiles, build_exercise, find_exercise, find_all_exercises}

-- `pov` comes after every name; other names are in the order of their bytes.
abbrev pub ComesBefore : Chars → Chars → Type 0
ComesBefore a b =
    (if chars_eq b pov then true else if chars_eq a pov then false else chars_leb a b) ≡ true

ComesBefore-trans : (a b c : Chars) → ComesBefore a b → ComesBefore b c → ComesBefore a c
ComesBefore-trans a b c h k = ground (arith, h, k, chars_leb_trans a b c)

ComesBefore-need_not_follow : (a b : Chars) → need_not_follow a b ≡ true → ComesBefore a b
unfolding need_not_follow
ComesBefore-need_not_follow a b h = ground (arith, h)

ComesBefore-follows : (a b : Chars) → need_not_follow a b ≡ false → ComesBefore b a
unfolding need_not_follow
ComesBefore-follows a b h = ground (arith, h, chars_leb_total a b)

discover-IsOrdered :
    (bundle : Bundle) (language : Chars) → IsOrdered ComesBefore (discover bundle language)
unfolding discover
discover-IsOrdered bundle language =
    sort_by-IsOrdered ComesBefore need_not_follow ComesBefore-trans ComesBefore-need_not_follow
      ComesBefore-follows
      (retain (λ name. not (is_deprecated name)) (exercise_names bundle language))

chars_eq_sound : (s t : Chars) → chars_eq s t ≡ true → s ≡ t
unfolding chars_eq
chars_eq_sound [] [] h = refl
chars_eq_sound [] (c ∷ t) h = absurd (not_both refl h)
chars_eq_sound (c ∷ s) [] h = absurd (not_both refl h)
chars_eq_sound (c ∷ s) (d ∷ t) h =
    let same_head : c ≡ d = ground (arith, h) in
    let same_tail : chars_eq s t ≡ true = ground (arith, h) in
    rw (same_head, chars_eq_sound s t same_tail) refl

contains-retain :
    (keep : Chars → Bool) (x : Chars) (xs : List Chars)
    → contains_chars x (retain keep xs) ≡ (keep x && contains_chars x xs)
contains-retain keep x [] = ground arith
contains-retain keep x (y ∷ ys) = elim (Bool-cases (chars_eq x y)) [
  | inl e ↦
      let same : keep x ≡ keep y = ap keep (chars_eq_sound x y e) in
      ground (arith, e, same, contains-retain keep x ys)
  | inr e ↦ ground (arith, e, contains-retain keep x ys)
]

-- Every list of the cache is what a look at the bundle gives.
IsCoherent : Bundle → ExercisesCache → Type 0
IsCoherent bundle cache =
    (language : Chars) (names : List Chars)
    → cached_exercises language cache ≡ some names
    → names ≡ discover bundle language

-- The cache after calls for these languages.
abbrev pub after_calls : Bundle → List Chars → ExercisesCache → ExercisesCache
after_calls bundle [] cache = cache
after_calls bundle (l ∷ ls) cache =
    after_calls bundle ls (get_exercises_for_language bundle l cache).1

insert-IsCoherent :
    (bundle : Bundle) (language : Chars) (cache : ExercisesCache)
    → IsCoherent bundle cache
    → IsCoherent bundle ((language, discover bundle language) ∷ cache)
unfolding IsCoherent cached_exercises
insert-IsCoherent bundle language cache h l names seen = elim (Bool-cases (chars_eq language l)) [
  | inl e ↦
      let same = chars_eq_sound language l e in let found = rw (cached_exercises, e) at seen in cc
  | inr e ↦ h l names (rw (cached_exercises, e) at seen)
]

call-IsCoherent :
    (bundle : Bundle) (language : Chars) (cache : ExercisesCache)
    → IsCoherent bundle cache
    → IsCoherent bundle (get_exercises_for_language bundle language cache).1
unfolding IsCoherent get_exercises_for_language cached_exercises
call-IsCoherent bundle language cache h = elim (Option-cases (cached_exercises language cache)) [
  | inl new ↦ rw (get_exercises_for_language, new) (insert-IsCoherent bundle language cache h)
  | inr (known, old) ↦ rw (get_exercises_for_language, old) h
]

after_calls-IsCoherent :
    (bundle : Bundle) (ls : List Chars) (cache : ExercisesCache)
    → IsCoherent bundle cache
    → IsCoherent bundle (after_calls bundle ls cache)
after_calls-IsCoherent bundle [] cache h = h
after_calls-IsCoherent bundle (l ∷ ls) cache h =
    after_calls-IsCoherent bundle ls _ (call-IsCoherent bundle l cache h)

-- What a call gives after any calls before it.
names_after :
    (bundle : Bundle) (ls : List Chars) (language : Chars)
    → (get_exercises_for_language bundle language (after_calls bundle ls [])).0
      ≡ discover bundle language
unfolding get_exercises_for_language IsCoherent cached_exercises
names_after bundle ls language =
    elim (Option-cases (cached_exercises language (after_calls bundle ls []))) [
      | inl new ↦ rw (get_exercises_for_language, new) refl
      | inr (names, old) ↦
          rw (get_exercises_for_language, old)
            (after_calls-IsCoherent bundle ls [] (λ l known none_yet. cc) language names old)
    ]

contains-discover :
    (bundle : Bundle) (language name : Chars)
    → contains_chars name (discover bundle language)
      ≡ (not (is_deprecated name) && contains_chars name (exercise_names bundle language))
unfolding discover
contains-discover bundle language name =
    any-sort_by need_not_follow (chars_eq name)
      (retain (λ x. not (is_deprecated x)) (exercise_names bundle language))
    ∙ contains-retain (λ x. not (is_deprecated x)) name (exercise_names bundle language)

-- Whatever calls came before, the exercises of a language come in the order of their names, with `pov`
-- last, and a name that is not empty and has no slash is among them exactly if it is not deprecated and
-- the bundle has files of the exercise or a plain file of the name.
pub discovered_exactly :
    (bundle : Bundle) (ls : List Chars) (language : Chars) (c : ℕ) (e : Chars)
    → any (λ b. b == 47) (c ∷ e) ≡ false
    → IsOrdered ComesBefore
        (get_exercises_for_language bundle language (after_calls bundle ls [])).0
      × (contains_chars
            (c ∷ e)
            (get_exercises_for_language bundle language (after_calls bundle ls [])).0
          ≡ (not (is_deprecated (c ∷ e))
              && (has_exercise bundle language (c ∷ e) || has_plain_file bundle language (c ∷ e))))
discovered_exactly bundle ls language c e plain = rw (names_after bundle ls language) (
  discover-IsOrdered bundle language,
  contains-discover bundle language (c ∷ e)
      ∙ ap (λ b. not (is_deprecated (c ∷ e)) && b) (listed_exactly bundle language c e plain),
)

module _ {Metadata : Type 0} (from_slice : Chars → Option Metadata)
    (files_of : Metadata → Option ExerciseFiles) (bundle : Bundle) where
  -- An exercise is found exactly if it is not deprecated and has files.
  pub is_some-find_exercise :
      (language name : Chars)
      → is_some (find_exercise from_slice files_of bundle language name)
        ≡ (not (is_deprecated name) && has_exercise bundle language name)
  unfolding find_exercise
  is_some-find_exercise language name = ground arith

  map-build_exercise :
      (language : Chars) (names : List Chars)
      → map
          (λ e. e.name)
          (map (λ name. build_exercise from_slice files_of bundle name language) names)
        ≡ names
  unfolding build_exercise
  map-build_exercise language [] = refl
  map-build_exercise language (name ∷ names) =
      ap (λ rest. name ∷ rest) (map-build_exercise language names)

  -- `find_all_exercises` builds the exercises that `get_exercises_for_language` names, in that order.
  pub find_all_exercises_names :
      (ls : List Chars) (language : Chars)
      → map (λ e. e.name) (find_all_exercises from_slice files_of bundle language)
        ≡ (get_exercises_for_language bundle language (after_calls bundle ls [])).0
  unfolding find_all_exercises discover
  find_all_exercises_names ls language =
      map-sort_by need_not_follow (λ e. e.name)
        (map (λ name. build_exercise from_slice files_of bundle name language)
          (retain (λ name. not (is_deprecated name)) (exercise_names bundle language)))
      ∙ ap (sort_by need_not_follow) (
          map-build_exercise language
            (retain (λ name. not (is_deprecated name)) (exercise_names bundle language)))
      ∙ sym (names_after bundle ls language)
