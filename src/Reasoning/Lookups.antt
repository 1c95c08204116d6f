-- ===== src/Reasoning/Lookups.antt =====
-- What the look-up of crates/benchmark-types/src/reasoning.rs finds: the latest exact entry, else the
-- first of the longest patterns.
use llm_benchmark.Common.{
  ℕ, true, false, String, List, [], ◌∷◌, ◌++◌, Option, none, some, ◌≡◌, refl, sym, ap, ◌∙◌,
  Bool-cases, ◌⊎◌, inl, inr, arith, ltb, ◌≤◌, ◌<◌, All, str_eq, not_both, str_eq_self,
}
use llm_benchmark.Reasoning.{ReasoningConfig}
use llm_benchmark.Reasoning.Patterns.{byte_len}
use llm_benchmark.Reasoning.Registry.{
  RegisteredEntry, register, is_exact, find_exact, is_glob_match, better, best_match, lookup,
}

module _ (lower : String → String) (model : String) where
  -- No pattern of the list that matches is longer than `n` bytes.
  abbrev pub AtMost : ℕ → List RegisteredEntry → Type 0
  AtMost n es = All (λ e. is_glob_match lower model e ≡ true → byte_len e.pattern ≤ n) es

  abbrev pub Below : ℕ → List RegisteredEntry → Type 0
  Below n es = All (λ e. is_glob_match lower model e ≡ true → byte_len e.pattern < n) es

  -- The entry is the first of the longest matching patterns.
  abbrev pub IsBest : List RegisteredEntry → RegisteredEntry → Type 0
  IsBest es e =
      (front : List RegisteredEntry) × (back : List RegisteredEntry) × (es ≡ front ++ e ∷ back)
      × (is_glob_match lower model e ≡ true)
      × Below (byte_len e.pattern) front
      × AtMost (byte_len e.pattern) back

  IsBest-later :
      (x e : RegisteredEntry) (es : List RegisteredEntry)
      → (is_glob_match lower model x ≡ true → byte_len x.pattern < byte_len e.pattern)
      → IsBest es e
      → IsBest (x ∷ es) e
  IsBest-later x e es h (front, back, q, m, below, most) =
      (x ∷ front, back, ap (x ∷◌) q, m, (h, below), most)

  abbrev entry_with : RegisteredEntry → Option (RegisteredEntry × ℕ)
  entry_with e = some (e, byte_len e.pattern)

  -- From a best match the pass keeps it, or finds a longer one.
  best_match-some :
      (b : RegisteredEntry) (es : List RegisteredEntry)
      → ((best_match lower model (entry_with b) es ≡ entry_with b) × AtMost (byte_len b.pattern) es)
        ⊎ ((e : RegisteredEntry) × (best_match lower model (entry_with b) es ≡ entry_with e)
            × (byte_len b.pattern < byte_len e.pattern)
            × IsBest es e)
  unfolding best_match better
  best_match-some b [] = inl (refl, tt)
  best_match-some b (x ∷ es) = elim (Bool-cases (is_glob_match lower model x)) [
    | inl m ↦ elim (Bool-cases (ltb (byte_len b.pattern) (byte_len x.pattern))) [
      | inl l ↦ elim (best_match-some x es) [
        | inl (q, most) ↦ inr (x, rw (m, l) q, ground (arith, l), ([], es, refl, m, tt, most))
        | inr (e, q, lt, best) ↦
            inr (e, rw (m, l) q, ground (arith, l, lt), IsBest-later x e es (λ _. lt) best)
      ]
      | inr l ↦ elim (best_match-some b es) [
        | inl (q, most) ↦ inl (rw (m, l) q, ((λ _. ground (arith, l)), most))
        | inr (e, q, lt, best) ↦
            inr (e, rw (m, l) q, lt, IsBest-later x e es (λ _. ground (arith, l, lt)) best)
      ]
    ]
    | inr m ↦ elim (best_match-some b es) [
      | inl (q, most) ↦ inl (rw m q, ((λ k. absurd (not_both m k)), most))
      | inr (e, q, lt, best) ↦
          inr (e, rw m q, lt, IsBest-later x e es (λ k. absurd (not_both m k)) best)
    ]
  ]

  -- From none it finds none if nothing matches, else the best.
  best_match-none :
      (es : List RegisteredEntry)
      → ((best_match lower model none es ≡ none)
          × All (λ e. is_glob_match lower model e ≡ false) es)
        ⊎ ((e : RegisteredEntry) × (best_match lower model none es ≡ entry_with e) × IsBest es e)
  unfolding best_match better
  best_match-none [] = inl (refl, tt)
  best_match-none (x ∷ es) = elim (Bool-cases (is_glob_match lower model x)) [
    | inl m ↦ elim (best_match-some x es) [
      | inl (q, most) ↦ inr (x, rw m q, ([], es, refl, m, tt, most))
      | inr (e, q, lt, best) ↦ inr (e, rw m q, IsBest-later x e es (λ _. lt) best)
    ]
    | inr m ↦ elim (best_match-none es) [
      | inl (q, others) ↦ inl (rw m q, (m, others))
      | inr (e, q, best) ↦ inr (e, rw m q, IsBest-later x e es (λ k. absurd (not_both m k)) best)
    ]
  ]

  -- The entry is the first of the exact ones.
  abbrev pub IsFirstExact : List RegisteredEntry → RegisteredEntry → Type 0
  IsFirstExact es e =
      (front : List RegisteredEntry) × (back : List RegisteredEntry) × (es ≡ front ++ e ∷ back)
      × (is_exact lower model e ≡ true)
      × All (λ x. is_exact lower model x ≡ false) front

  find_exact-cases :
      (es : List RegisteredEntry)
      → ((find_exact lower model es ≡ none) × All (λ e. is_exact lower model e ≡ false) es)
        ⊎ ((e : RegisteredEntry) × (find_exact lower model es ≡ some e.config) × IsFirstExact es e)
  unfolding find_exact
  find_exact-cases [] = inl (refl, tt)
  find_exact-cases (x ∷ es) = elim (Bool-cases (is_exact lower model x)) [
    | inl m ↦ inr (x, rw m refl, ([], es, refl, m, tt))
    | inr m ↦ elim (find_exact-cases es) [
      | inl (q, others) ↦ inl (rw m q, (m, others))
      | inr (e, q, (front, back, es_eq, ex, before)) ↦
          inr (e, rw m q, (x ∷ front, back, ap (x ∷◌) es_eq, ex, (m, before)))
    ]
  ]

  -- The three ways a look-up ends.
  pub data Found : List RegisteredEntry → Option ReasoningConfig → Type 0 where
    exact :
        {es : List RegisteredEntry} (e : RegisteredEntry)
        → IsFirstExact es e
        → Found es (some e.config)
    glob :
        {es : List RegisteredEntry} (e : RegisteredEntry)
        → All (λ x. is_exact lower model x ≡ false) es
        → IsBest es e
        → Found es (some e.config)
    missing :
        {es : List RegisteredEntry}
        → All (λ x. is_exact lower model x ≡ false) es
        → All (λ x. is_glob_match lower model x ≡ false) es
        → Found es none

  -- A look-up gives the config of the first exact entry; with no exact one, that of the first of the
  -- longest patterns that match; with neither, nothing.
  pub lookup-Found : (es : List RegisteredEntry) → Found es (lookup lower model es)
  unfolding lookup
  lookup-Found es = elim (find_exact-cases es) [
    | inr (e, q, first) ↦ rw (lookup, q) (Found.exact e first)
    | inl (q, others) ↦ elim (best_match-none es) [
      | inl (r, none_match) ↦ rw (lookup, q, r) (Found.missing others none_match)
      | inr (e, r, best) ↦ rw (lookup, q, r) (Found.glob e others best)
    ]
  ]

-- What was registered last under a name is what a look-up of the name gives, whatever the case of the
-- letters and whatever was registered before.
pub lookup-register :
    (lower : String → String) (pattern model : String) (c : ReasoningConfig)
    (es : List RegisteredEntry)
    → lower pattern ≡ lower model
    → lookup lower model (register pattern c es) ≡ some c
unfolding lookup register find_exact is_exact
lookup-register lower pattern model c es h =
    let same : str_eq (lower pattern) (lower model) ≡ true =
      ap (str_eq (lower pattern)) (sym h) ∙ str_eq_self (lower pattern) in
    elim (Bool-cases (str_eq pattern model)) [
      | inl e ↦ rw (lookup, find_exact, is_exact, e) refl
      | inr e ↦ rw (lookup, find_exact, is_exact, e, same) refl
    ]
