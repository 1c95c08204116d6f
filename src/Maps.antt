-- ===== src/Maps.antt =====
-- Association lists in place of `HashMap`: the change of one entry, the look-up, and what a change
-- does to a look-up and to a sum over all entries.
use llm_benchmark.Common.{
  ℕ, ◌+◌, false, String, List, [], ◌∷◌, Option, none, some, if◌then◌else◌, ◌≡◌, refl, str_eq,
  eq_iff, arith, Bool-cases, inl, inr, is_some, ◌∙◌,
}

-- `HashMap::entry` with a change of the value, which may not be there.
module _ {ℓ} {V : Type ℓ} where
  unfoldable pub upsert : String → (Option V → V) → List (String × V) → List (String × V)
  upsert k f [] = (k, f none) ∷ []
  upsert k f ((j, v) ∷ m) = if str_eq j k then (j, f (some v)) ∷ m else (j, v) ∷ upsert k f m

  unfoldable pub lookup : String → List (String × V) → Option V
  lookup k [] = none
  lookup k ((j, v) ∷ m) = if str_eq j k then some v else lookup k m

module _ {ℓ} {V : Type ℓ} where
  pub lookup-upsert :
      (j k : String) (f : Option V → V) (m : List (String × V))
      → lookup j (upsert k f m) ≡ (if str_eq k j then some (f (lookup k m)) else lookup j m)
  unfolding upsert lookup
  lookup-upsert j k f [] = refl
  lookup-upsert j k f ((i, v) ∷ m) =
      ground (arith, eq_iff i k, eq_iff k j, eq_iff i j, lookup-upsert j k f m)

  -- The sum of a number over the values.
  abbrev pub sum_values : (V → ℕ) → List (String × V) → ℕ
  sum_values g [] = 0
  sum_values g ((k, v) ∷ m) = g v + sum_values g m

  pub sum-upsert :
      (g : V → ℕ) (n : ℕ) (k : String) (f : Option V → V)
      → g (f none) ≡ n
      → ((v : V) → g (f (some v)) ≡ g v + n)
      → (m : List (String × V)) → sum_values g (upsert k f m) ≡ sum_values g m + n
  unfolding upsert
  sum-upsert g n k f new old [] = omega (arith, new)
  sum-upsert g n k f new old ((j, v) ∷ m) = elim (Bool-cases (str_eq j k)) [
    | inl e ↦ rw e (omega (arith, old v))
    | inr e ↦ rw e (omega (arith, sum-upsert g n k f new old m))
  ]

  -- Every key stands once.
  abbrev pub AreUnique : List (String × V) → Type 0
  AreUnique [] = Unit
  AreUnique ((k, v) ∷ m) = (is_some (lookup k m) ≡ false) × AreUnique m

  is_some-upsert :
      (j k : String) (f : Option V → V) (m : List (String × V))
      → str_eq k j ≡ false
      → is_some (lookup j (upsert k f m)) ≡ is_some (lookup j m)
  is_some-upsert j k f m h = rw (lookup-upsert j k f m, h) refl

  pub upsert-AreUnique :
      (k : String) (f : Option V → V) (m : List (String × V))
      → AreUnique m
      → AreUnique (upsert k f m)
  unfolding upsert lookup
  upsert-AreUnique k f [] h = (refl, tt)
  upsert-AreUnique k f ((j, v) ∷ m) h = elim (Bool-cases (str_eq j k)) [
    | inl e ↦ rw (upsert, e) h
    | inr e ↦
        let apart : str_eq k j ≡ false = ground (arith, e, eq_iff k j, eq_iff j k) in
        rw (upsert, e) (is_some-upsert j k f m apart ∙ h.0, upsert-AreUnique k f m h.1)
  ]
