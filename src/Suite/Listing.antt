-- ===== src/Suite/Listing.antt =====
-- How the listings of the exercise suite, crates/benchmark-exercises/src/lib.rs, go with its look-ups.
use llm_benchmark.Common.{
  ℕ, Bool, true, false, List, [], ◌∷◌, ◌++◌, Option, none, some, ◌==◌, ◌≡◌, refl, ◌∙◌, ap, any,
  is_some, arith, Bool-cases, Option-cases, inl, inr, sym, ◌||◌, not_both,
}
use llm_benchmark.Json.{◌>>=◌}
use llm_benchmark.Ordering.{chars_leb, sort_by, any-sort_by}
use llm_benchmark.Reasoning.Patterns.{Chars, strip_prefix, chars_eq}
use llm_benchmark.Suite.{
  Bundle, first_segment, unless_empty, exercise_of, exercise_prefix, filter_map, keep_new, dedup,
  exercise_names, list_files, read_file, get_file, has_exercise, practice, is_there,
}

abbrev pub contains_chars : Chars → List Chars → Bool
contains_chars x xs = any (chars_eq x) xs

-- A test of what may be there.
abbrev holds {ℓ} : {A : Type ℓ} → (A → Bool) → Option A → Bool
holds test none = false
holds test (some a) = test a

any-filter_map {ℓ κ} :
    {A : Type ℓ} {B : Type κ} (test : B → Bool) (f : A → Option B) (xs : List A)
    → any test (filter_map f xs) ≡ any (λ x. holds test (f x)) xs
unfolding filter_map
any-filter_map test f [] = refl
any-filter_map test f (x ∷ xs) = elim (Option-cases (f x)) [
  | inl e ↦ rw (filter_map, e) (any-filter_map test f xs)
  | inr (y, e) ↦ rw (filter_map, e) (ground (arith, any-filter_map test f xs))
]

any_same {ℓ} :
    {A : Type ℓ} (p q : A → Bool) → ((x : A) → p x ≡ q x) → (xs : List A) → any p xs ≡ any q xs
any_same p q same [] = refl
any_same p q same (x ∷ xs) = rw (same x, any_same p q same xs) refl

chars_eq_same : (x y z : Chars) → chars_eq y z ≡ true → chars_eq x y ≡ chars_eq x z
unfolding chars_eq
chars_eq_same [] [] [] h = refl
chars_eq_same [] [] (c ∷ z) h = absurd (not_both refl h)
chars_eq_same [] (b ∷ y) [] h = absurd (not_both refl h)
chars_eq_same [] (b ∷ y) (c ∷ z) h = refl
chars_eq_same (a ∷ x) [] [] h = refl
chars_eq_same (a ∷ x) [] (c ∷ z) h = absurd (not_both refl h)
chars_eq_same (a ∷ x) (b ∷ y) [] h = absurd (not_both refl h)
chars_eq_same (a ∷ x) (b ∷ y) (c ∷ z) h = ground (arith, h, chars_eq_same x y z)

contains-keep_new :
    (x y : Chars) (ys : List Chars) → contains_chars x (keep_new y ys) ≡ contains_chars x (y ∷ ys)
unfolding keep_new
contains-keep_new x y [] = refl
contains-keep_new x y (z ∷ zs) = ground (arith, chars_eq_same x y z)

contains-dedup : (x : Chars) (xs : List Chars) → contains_chars x (dedup xs) ≡ contains_chars x xs
unfolding dedup
contains-dedup x [] = refl
contains-dedup x (y ∷ ys) = contains-keep_new x y (dedup ys) ∙ ground (arith, contains-dedup x ys)

strip_prefix_twice :
    (p q t : Chars) → strip_prefix (p ++ q) t ≡ (strip_prefix p t >>= strip_prefix q)
unfolding strip_prefix
strip_prefix_twice [] q t = refl
strip_prefix_twice (c ∷ p) q [] = refl
strip_prefix_twice (c ∷ p) q (d ∷ t) = elim (Bool-cases (c == d)) [
  | inl e ↦ rw (strip_prefix, e) (strip_prefix_twice p q t)
  | inr e ↦ rw (strip_prefix, e) refl
]

chars_eq-append :
    (p q t : Chars) → chars_eq t (p ++ q) ≡ holds (λ rest. chars_eq rest q) (strip_prefix p t)
unfolding strip_prefix chars_eq
chars_eq-append [] q t = refl
chars_eq-append (c ∷ p) q [] = refl
chars_eq-append (c ∷ p) q (d ∷ t) = ground (arith, chars_eq-append p q t)

-- A first segment that is `e` is followed by a slash or by nothing.
first_segment_lem :
    (e rest : Chars)
    → any (λ c. c == 47) e ≡ false
    → chars_eq e (first_segment rest)
      ≡ (is_some (strip_prefix (e ++ 47 ∷ []) rest) || chars_eq rest e)
unfolding first_segment chars_eq strip_prefix
first_segment_lem [] [] h = refl
first_segment_lem [] (c ∷ r) h = ground arith
first_segment_lem (d ∷ e) [] h = refl
first_segment_lem (d ∷ e) (c ∷ r) h = ground (arith, h, first_segment_lem e r)

-- The test of a path for an exercise of a language.
unless_empty_lem :
    (c : ℕ) (e s : Chars) → holds (chars_eq (c ∷ e)) (unless_empty s) ≡ chars_eq (c ∷ e) s
unfolding unless_empty chars_eq
unless_empty_lem c e [] = refl
unless_empty_lem c e (d ∷ s) = refl

either_way : {o p : Option Chars} {a b : Bool} → o ≡ p → a ≡ b → (is_some o || a) ≡ (is_some p || b)
either_way q r = rw (q, r) refl

module _ (c : ℕ) (e : Chars) (plain : any (λ b. b == 47) (c ∷ e) ≡ false) where
  -- The same test below the exercises of a language.
  first_segment_at :
      (o : Option Chars)
      → holds (chars_eq (c ∷ e)) (o >>= λ rest. unless_empty (first_segment rest)) ≡ (
          is_some (o >>= strip_prefix ((c ∷ e) ++ 47 ∷ []))
          || holds (λ rest. chars_eq rest (c ∷ e)) o)
  first_segment_at none = refl
  first_segment_at (some rest) =
      unless_empty_lem c e (first_segment rest) ∙ first_segment_lem (c ∷ e) rest plain

  -- A path is listed for the exercise exactly if it is that of one of its files, or of a file of its name.
  exercise_of_lem :
      (language path : Chars)
      → holds (chars_eq (c ∷ e)) (exercise_of path language) ≡ (
          is_some (strip_prefix (exercise_prefix language (c ∷ e)) path)
          || chars_eq path ((language ++ 47 ∷ practice) ++ (c ∷ e)))
  unfolding exercise_of exercise_prefix
  exercise_of_lem language path =
      first_segment_at (strip_prefix (language ++ 47 ∷ practice) path)
      ∙ sym (
          either_way (strip_prefix_twice (language ++ 47 ∷ practice) ((c ∷ e) ++ 47 ∷ []) path)
            (chars_eq-append (language ++ 47 ∷ practice) (c ∷ e) path))

is_there-any : (xs : List Chars) → is_there xs ≡ any (λ _. true) xs
unfolding is_there
is_there-any [] = refl
is_there-any (x ∷ xs) = refl

holds_some : (o : Option Chars) → holds (λ _. true) o ≡ is_some o
holds_some none = refl
holds_some (some x) = refl

any_or {ℓ} :
    {A : Type ℓ} (p q : A → Bool) (xs : List A) → any (λ x. p x || q x) xs ≡ (any p xs || any q xs)
any_or p q [] = refl
any_or p q (x ∷ xs) = ground (arith, any_or p q xs)

chars_eq_comm : (s t : Chars) → chars_eq s t ≡ chars_eq t s
unfolding chars_eq
chars_eq_comm [] [] = refl
chars_eq_comm [] (c ∷ t) = refl
chars_eq_comm (c ∷ s) [] = refl
chars_eq_comm (c ∷ s) (d ∷ t) = ground (arith, chars_eq_comm s t)

holds_comm : (x : Chars) (o : Option Chars) → holds (chars_eq x) o ≡ holds (λ y. chars_eq y x) o
holds_comm x none = refl
holds_comm x (some y) = chars_eq_comm x y

get_file-any :
    (key : Chars) (files : Bundle)
    → any (λ file. chars_eq file.0 key) files ≡ is_some (get_file files key)
unfolding get_file
get_file-any key [] = refl
get_file-any key ((path, content) ∷ files) = ground (arith, get_file-any key files)

module _ (bundle : Bundle) (language : Chars) where
  has_exercise-any :
      (exercise : Chars)
      → has_exercise bundle language exercise
        ≡ any (λ file. is_some (strip_prefix (exercise_prefix language exercise) file.0)) bundle
  unfolding has_exercise list_files
  has_exercise-any exercise =
      is_there-any (list_files bundle language exercise)
      ∙ any-sort_by chars_leb (λ _. true) _
      ∙ any-filter_map (λ _. true) (λ file. strip_prefix (exercise_prefix language exercise) file.0)
          bundle
      ∙ any_same _ _ (λ file. holds_some (strip_prefix (exercise_prefix language exercise) file.0))
          bundle

  -- The files of the bundle that lie among the exercises without a directory of their own.
  abbrev pub has_plain_file : Chars → Bool
  has_plain_file exercise =
      any (λ file. chars_eq file.0 ((language ++ 47 ∷ practice) ++ exercise)) bundle

  -- A language lists the exercise of that name, which is not empty and has no slash, exactly if the
  -- exercise is there, or a plain file of its name lies among the exercises.
  pub listed_exactly :
      (c : ℕ) (e : Chars)
      → any (λ b. b == 47) (c ∷ e) ≡ false
      → contains_chars (c ∷ e) (exercise_names bundle language)
        ≡ (has_exercise bundle language (c ∷ e) || has_plain_file (c ∷ e))
  unfolding exercise_names
  listed_exactly c e plain =
      let found : List Chars = filter_map (λ file. exercise_of file.0 language) bundle in
      contains-dedup (c ∷ e) (sort_by chars_leb found)
      ∙ any-sort_by chars_leb (chars_eq (c ∷ e)) found
      ∙ any-filter_map (chars_eq (c ∷ e)) (λ file. exercise_of file.0 language) bundle
      ∙ any_same _ _ (λ file. exercise_of_lem c e plain language file.0) bundle
      ∙ any_or (λ file. is_some (strip_prefix (exercise_prefix language (c ∷ e)) file.0))
          (λ file. chars_eq file.0 ((language ++ 47 ∷ practice) ++ (c ∷ e))) bundle
      ∙ ap (λ b. b || has_plain_file (c ∷ e)) (sym (has_exercise-any (c ∷ e)))

  -- A file is listed for an exercise exactly if it can be read.
  pub listed_read :
      (exercise file : Chars)
      → contains_chars file (list_files bundle language exercise)
        ≡ is_some (read_file bundle language exercise file)
  unfolding list_files read_file
  listed_read exercise file =
      any-sort_by chars_leb (chars_eq file) _
      ∙ any-filter_map (chars_eq file) (λ f. strip_prefix (exercise_prefix language exercise) f.0)
          bundle
      ∙ any_same _ _
          (λ f.
            holds_comm file (strip_prefix (exercise_prefix language exercise) f.0)
            ∙ sym (chars_eq-append (exercise_prefix language exercise) file f.0))
          bundle
      ∙ get_file-any (exercise_prefix language exercise ++ file) bundle
