-- ===== src/Results/Groups.antt =====
-- The groupings of benchmark-web/src/services/result_service/statistics.rs: what a group holds, and
-- that the groups make up the whole.
use llm_benchmark.Common.{
  ℕ, ◌+◌, Bool, String, List, [], ◌∷◌, Option, none, some, if◌then◌else◌, ◌≡◌, str_eq, ◌&&◌, arith,
  Bool-cases, inl, inr, str-cases,
}
use llm_benchmark.Results.{
  CachedResult, Filters, GroupStats, or_zeros, add_stats, Grouping, add_to, Tally, add_result,
  passes, accumulate,
}
use llm_benchmark.Maps.{lookup, lookup-upsert, sum_values, sum-upsert}

-- The sum of a number over the results that pass and have the key.
abbrev pub sum_of : (CachedResult → Bool) → (CachedResult → ℕ) → List CachedResult → ℕ
sum_of test n [] = 0
sum_of test n (r ∷ rs) = if test r then n r + sum_of test n rs else sum_of test n rs

-- A number of a group, and the one of a result that goes into it.
abbrev pub IsMeasure : (GroupStats → ℕ) → (CachedResult → ℕ) → Type 0
IsMeasure m n =
    (m (or_zeros none) ≡ 0)
    × ((r : CachedResult) (o : Option GroupStats) → m (add_stats r o) ≡ m (or_zeros o) + n r)

module _ (parse : String → Option ℕ) (f : Filters) (m : GroupStats → ℕ) (n : CachedResult → ℕ)
    (measure : IsMeasure m n) where
  abbrev pub in_group : (CachedResult → String) → String → CachedResult → Bool
  in_group key k r = passes f r && str_eq (key r) k

  lookup-add :
      (key : CachedResult → String) (k : String) (r : CachedResult) (g : Grouping)
      → m (or_zeros (lookup k (add_to parse key r g).sums))
        ≡ m (or_zeros (lookup k g.sums)) + (if str_eq (key r) k then n r else 0)
  unfolding add_to
  lookup-add key k r g = elim (str-cases (key r) k) [
    | inl (same, e) ↦
        rw (lookup-upsert k (key r) (add_stats r) g.sums, e)
          (rw same (measure.1 r (lookup k g.sums)))
    | inr (_, e) ↦ rw (lookup-upsert k (key r) (add_stats r) g.sums, e) (omega arith)
  ]

  sum-add :
      (key : CachedResult → String) (r : CachedResult) (g : Grouping)
      → sum_values m (add_to parse key r g).sums ≡ sum_values m g.sums + n r
  unfolding add_to
  sum-add key r g =
      sum-upsert m (n r) (key r) (add_stats r) (omega (arith, measure.1 r none, measure.0))
        (λ v. measure.1 r (some v)) g.sums

  -- A grouping of the loop with its key.
  module _ (key : CachedResult → String) (part : Tally → Grouping)
      (adds : (r : CachedResult) (l : Tally)
        → part (add_result parse r l) ≡ add_to parse key r (part l)) where
    lookup-step :
        (k : String) (r : CachedResult) (l : Tally)
        → m (or_zeros (lookup k (part (add_result parse r l)).sums))
          ≡ m (or_zeros (lookup k (part l).sums)) + (if str_eq (key r) k then n r else 0)
    lookup-step k r l = rw (adds r l) (lookup-add key k r (part l))

    sum-step :
        (r : CachedResult) (l : Tally)
        → sum_values m (part (add_result parse r l)).sums ≡ sum_values m (part l).sums + n r
    sum-step r l = rw (adds r l) (sum-add key r (part l))

    pub lookup-accumulate :
        (k : String) (rs : List CachedResult) (l : Tally)
        → m (or_zeros (lookup k (part (accumulate parse f rs l)).sums))
          ≡ m (or_zeros (lookup k (part l).sums)) + sum_of (in_group key k) n rs
    unfolding accumulate
    lookup-accumulate k [] l = omega arith
    lookup-accumulate k (r ∷ rs) l = elim (Bool-cases (passes f r)) [
      | inl e ↦ elim (Bool-cases (str_eq (key r) k)) [
        | inl q ↦
            rw (accumulate, e, q)
              (omega
                (arith, lookup-accumulate k rs (add_result parse r l), rw q at (lookup-step k r l)))
        | inr q ↦
            rw (accumulate, e, q)
              (omega
                (arith, lookup-accumulate k rs (add_result parse r l), rw q at (lookup-step k r l)))
      ]
      | inr e ↦ rw (accumulate, e) (lookup-accumulate k rs l)
    ]

    pub sum-accumulate :
        (rs : List CachedResult) (l : Tally)
        → sum_values m (part (accumulate parse f rs l)).sums
          ≡ sum_values m (part l).sums + sum_of (passes f) n rs
    unfolding accumulate
    sum-accumulate [] l = omega arith
    sum-accumulate (r ∷ rs) l = elim (Bool-cases (passes f r)) [
      | inl e ↦
          rw (accumulate, e) (omega (arith, sum-accumulate rs (add_result parse r l), sum-step r l))
      | inr e ↦ rw (accumulate, e) (sum-accumulate rs l)
    ]

  pub totals-accumulate :
      (rs : List CachedResult) (l : Tally)
      → m (accumulate parse f rs l).totals ≡ m l.totals + sum_of (passes f) n rs
  unfolding accumulate
  totals-accumulate [] l = omega arith
  totals-accumulate (r ∷ rs) l = elim (Bool-cases (passes f r)) [
    | inl e ↦
        let one : m (add_result parse r l).totals ≡ m l.totals + n r =
          unfold add_result in (measure.1 r (some l.totals)) in
        rw (accumulate, e) (omega (arith, totals-accumulate rs (add_result parse r l), one))
    | inr e ↦ rw (accumulate, e) (totals-accumulate rs l)
  ]
