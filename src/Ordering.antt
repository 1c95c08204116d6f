-- ===== src/Ordering.antt =====
-- The order of texts as lists of bytes, and the stable sort of a slice by a test on two items, which
-- several modules use; what the sort keeps and the order that it makes.
use llm_benchmark.Common.{
  Bool, true, false, List, [], ◌∷◌, if◌then◌else◌, ltb, ◌==◌, ◌≡◌, refl, ◌∙◌, All, length, retain,
  any, map, ap, arith, Bool-cases, inl, inr,
}
use llm_benchmark.Reasoning.Patterns.{Chars}

-- `a <= b` of two texts.
unfoldable pub chars_leb : Chars → Chars → Bool
chars_leb [] t = true
chars_leb (b ∷ s) [] = false
chars_leb (b ∷ s) (c ∷ t) = if ltb b c then true else if b == c then chars_leb s t else false

module _ {ℓ} {A : Type ℓ} (is_before : A → A → Bool) where
  unfoldable pub insert_sorted : A → List A → List A
  insert_sorted x [] = x ∷ []
  insert_sorted x (y ∷ ys) = if is_before x y then x ∷ y ∷ ys else y ∷ insert_sorted x ys

  -- `sort_by`, which is stable: the items in order, each before those that it need not follow.
  unfoldable pub sort_by : List A → List A
  unfolding insert_sorted
  sort_by [] = []
  sort_by (x ∷ xs) = insert_sorted x (sort_by xs)

pub chars_leb_total : (s t : Chars) → chars_leb s t ≡ false → chars_leb t s ≡ true
unfolding chars_leb
chars_leb_total [] t h = ground (arith, h)
chars_leb_total (b ∷ s) [] h = refl
chars_leb_total (b ∷ s) (c ∷ t) h = ground (arith, h, chars_leb_total s t)

pub chars_leb_trans :
    (s t u : Chars) → chars_leb s t ≡ true → chars_leb t u ≡ true → chars_leb s u ≡ true
unfolding chars_leb
chars_leb_trans [] t u h k = refl
chars_leb_trans (b ∷ s) [] u h k = ground (arith, h)
chars_leb_trans (b ∷ s) (c ∷ t) [] h k = ground (arith, k)
chars_leb_trans (b ∷ s) (c ∷ t) (d ∷ u) h k = ground (arith, h, k, chars_leb_trans s t u)

module _ {ℓ κ} {A : Type ℓ} (R : A → A → Type κ) where
  -- Each item is in the relation with all later ones.
  unfoldable pub IsOrdered : List A → Type κ
  IsOrdered [] = Unit
  IsOrdered (x ∷ xs) = All (R x) xs × IsOrdered xs

module _ {ℓ} {A : Type ℓ} (is_before : A → A → Bool) where
  All-insert_sorted {κ} :
      (P : A → Type κ) (x : A) (xs : List A) → P x → All P xs → All P (insert_sorted is_before x xs)
  unfolding insert_sorted
  All-insert_sorted P x [] p h = (p, tt)
  All-insert_sorted P x (y ∷ ys) p h = elim (Bool-cases (is_before x y)) [
    | inl e ↦ rw (insert_sorted, e) (p, h)
    | inr e ↦ rw (insert_sorted, e) (h.0, All-insert_sorted P x ys p h.1)
  ]

  pub All-sort_by {κ} : (P : A → Type κ) (xs : List A) → All P xs → All P (sort_by is_before xs)
  unfolding sort_by
  All-sort_by P [] h = tt
  All-sort_by P (x ∷ xs) h = All-insert_sorted P x (sort_by is_before xs) h.0 (All-sort_by P xs h.1)

  length-insert_sorted :
      (test : A → Bool) (x : A) (xs : List A)
      → length (retain test (insert_sorted is_before x xs)) ≡ length (retain test (x ∷ xs))
  unfolding insert_sorted
  length-insert_sorted test x [] = refl
  length-insert_sorted test x (y ∷ ys) = ground (arith, length-insert_sorted test x ys)

  any-insert_sorted :
      (test : A → Bool) (x : A) (xs : List A)
      → any test (insert_sorted is_before x xs) ≡ any test (x ∷ xs)
  unfolding insert_sorted
  any-insert_sorted test x [] = refl
  any-insert_sorted test x (y ∷ ys) = ground (arith, any-insert_sorted test x ys)

  pub any-sort_by : (test : A → Bool) (xs : List A) → any test (sort_by is_before xs) ≡ any test xs
  unfolding sort_by
  any-sort_by test [] = refl
  any-sort_by test (x ∷ xs) =
      any-insert_sorted test x (sort_by is_before xs) ∙ ground (arith, any-sort_by test xs)

  -- The sort neither loses nor repeats an item: as many as before pass any test.
  pub length-sort_by :
      (test : A → Bool) (xs : List A)
      → length (retain test (sort_by is_before xs)) ≡ length (retain test xs)
  unfolding sort_by
  length-sort_by test [] = refl
  length-sort_by test (x ∷ xs) =
      length-insert_sorted test x (sort_by is_before xs) ∙ ground (arith, length-sort_by test xs)

module _ {ℓ κ} {A : Type ℓ} (R : A → A → Type κ) (is_before : A → A → Bool)
    (R_trans : (x y z : A) → R x y → R y z → R x z)
    (before : (x y : A) → is_before x y ≡ true → R x y)
    (behind : (x y : A) → is_before x y ≡ false → R y x) where
  All-trans : (x y : A) (zs : List A) → R x y → All (R y) zs → All (R x) zs
  All-trans x y [] r h = tt
  All-trans x y (z ∷ zs) r h = (R_trans x y z r h.0, All-trans x y zs r h.1)

  insert_sorted-IsOrdered :
      (x : A) (xs : List A) → IsOrdered R xs → IsOrdered R (insert_sorted is_before x xs)
  unfolding insert_sorted IsOrdered
  insert_sorted-IsOrdered x [] h = (tt, tt)
  insert_sorted-IsOrdered x (y ∷ ys) h = elim (Bool-cases (is_before x y)) [
    | inl e ↦ rw (insert_sorted, e) ((before x y e, All-trans x y ys (before x y e) h.0), h)
    | inr e ↦
        rw (insert_sorted, e)
          (
            All-insert_sorted is_before (R y) x ys (behind x y e) h.0,
            insert_sorted-IsOrdered x ys h.1,
          )
  ]

  pub sort_by-IsOrdered : (xs : List A) → IsOrdered R (sort_by is_before xs)
  unfolding sort_by IsOrdered
  sort_by-IsOrdered [] = tt
  sort_by-IsOrdered (x ∷ xs) =
      insert_sorted-IsOrdered x (sort_by is_before xs) (sort_by-IsOrdered xs)

module _ {ℓ κ} {A : Type ℓ} {B : Type κ} (is_before : B → B → Bool) (key : A → B) where
  map-insert_sorted :
      (x : A) (xs : List A)
      → map key (insert_sorted (λ a b. is_before (key a) (key b)) x xs)
        ≡ insert_sorted is_before (key x) (map key xs)
  unfolding insert_sorted
  map-insert_sorted x [] = refl
  map-insert_sorted x (y ∷ ys) = elim (Bool-cases (is_before (key x) (key y))) [
    | inl e ↦ rw (insert_sorted, e) refl
    | inr e ↦ rw (insert_sorted, e) (ap (λ rest. key y ∷ rest) (map-insert_sorted x ys))
  ]

  -- A sort by keys sorts the keys.
  pub map-sort_by :
      (xs : List A)
      → map key (sort_by (λ a b. is_before (key a) (key b)) xs) ≡ sort_by is_before (map key xs)
  unfolding sort_by
  map-sort_by [] = refl
  map-sort_by (x ∷ xs) =
      map-insert_sorted x (sort_by (λ a b. is_before (key a) (key b)) xs)
      ∙ ap (insert_sorted is_before (key x)) (map-sort_by xs)
