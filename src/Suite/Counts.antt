-- ===== src/Suite/Counts.antt =====
-- How many items of a list pass a test: the counts that the runs of the exercise suite keep. No code
-- of the repository is modelled here.
use llm_benchmark.Common.{
  ℕ, suc, ◌+◌, Bool, true, false, List, [], ◌∷◌, ◌++◌, Option, none, some, length, retain,
  retain-append, length-append, ◌≡◌, refl, ◌∙◌, ap, arith, inl, inr, Option-cases, ◌&&◌,
}
use llm_benchmark.Suite.{filter_map}
use llm_benchmark.Suite.Stream.{Takes}

module _ {ℓ} {A : Type ℓ} where
  -- The items that pass a test.
  abbrev pub count : (A → Bool) → List A → ℕ
  count test xs = length (retain test xs)

  pub count_all : (xs : List A) → count (λ _. true) xs ≡ length xs
  count_all [] = refl
  count_all (x ∷ xs) = ap suc (count_all xs)

  pub count-append :
      (test : A → Bool) (xs ys : List A) → count test (xs ++ ys) ≡ count test xs + count test ys
  count-append test xs ys =
      ap length (retain-append test xs ys) ∙ length-append (retain test xs) (retain test ys)

  pub count-Takes :
      (test : A → Bool) {xs ys : List A} {x : A}
      → Takes xs x ys
      → count test xs ≡ count test (x ∷ ys)
  count-Takes test Takes.first = refl
  count-Takes test (Takes.later {x = x} {y = y} t) = ground (arith, count-Takes test t)

  pub count-moved :
      (test : A → Bool) (x : A) (xs ys zs : List A)
      → count test xs + (count test ys + count test (x ∷ zs))
        ≡ count test xs + (count test (ys ++ (x ∷ [])) + count test zs)
  count-moved test x xs ys zs = ground (arith, count-append test ys (x ∷ []))

  pub length-Takes : {xs ys : List A} {x : A} → Takes xs x ys → length xs ≡ suc (length ys)
  length-Takes Takes.first = refl
  length-Takes (Takes.later t) = ap suc (length-Takes t)

  pub retain_twice :
      (k test : A → Bool) (xs : List A) → retain test (retain k xs) ≡ retain (λ x. k x && test x) xs
  retain_twice k test [] = refl
  retain_twice k test (x ∷ xs) = ground (arith, retain_twice k test xs)

module _ {ℓ κ} {A : Type ℓ} {R : Type κ} (outcome : A → Option R) (test : R → Bool) where
  abbrev pub passes_outcome : Option R → Bool
  passes_outcome none = false
  passes_outcome (some r) = test r

  pub count-filter_map :
      (xs : List A)
      → count test (filter_map outcome xs) ≡ count (λ x. passes_outcome (outcome x)) xs
  unfolding filter_map
  count-filter_map [] = refl
  count-filter_map (x ∷ xs) = elim (Option-cases (outcome x)) [
    | inl e ↦ rw (filter_map, e) (count-filter_map xs)
    | inr (r, e) ↦ rw (filter_map, e) (ground (arith, count-filter_map xs))
  ]
