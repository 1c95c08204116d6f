-- ===== src/Schedule/Sorting.antt =====
-- The order in which `schedule_batch` of benchmark-web/src/services/queue_processor.rs queues the
-- items of a retry.
use llm_benchmark.Common.{
  ℕ, ◌≤◌, ◌≡◌, refl, ◌∙◌, inl, inr, List, [], ◌∷◌, All, arith, ltb, ◌==◌, retain, Bool-cases,
}
use llm_benchmark.Item.{BenchmarkQueueItem}
use llm_benchmark.Schedule.{insert_by, sort_slowest_first}

abbrev pub Items : Type 0
Items = List BenchmarkQueueItem

module _ (duration : BenchmarkQueueItem → ℕ) where
  -- No item is followed by one that took longer.
  unfoldable pub IsSlowestFirst : Items → Type 0
  IsSlowestFirst [] = Unit
  IsSlowestFirst (x ∷ xs) = All (λ y. duration y ≤ duration x) xs × IsSlowestFirst xs

  -- The items that took exactly `d`, in their order.
  abbrev pub lasting : ℕ → Items → Items
  lasting d xs = retain (λ x. duration x == d) xs

  All-weaken :
      (a b : ℕ) (xs : Items) → a ≤ b → All (λ y. duration y ≤ a) xs → All (λ y. duration y ≤ b) xs
  All-weaken a b [] le h = tt
  All-weaken a b (x ∷ xs) le h = (ground (arith, h.0), All-weaken a b xs le h.1)

  All-insert_by :
      (P : BenchmarkQueueItem → Type 0) (x : BenchmarkQueueItem) (xs : Items)
      → P x
      → All P xs
      → All P (insert_by duration x xs)
  unfolding insert_by
  All-insert_by P x [] p h = (p, tt)
  All-insert_by P x (y ∷ ys) p h = elim (Bool-cases (ltb (duration x) (duration y))) [
    | inl e ↦ rw e (h.0, All-insert_by P x ys p h.1)
    | inr e ↦ rw e (p, h)
  ]

  pub All-sort :
      (P : BenchmarkQueueItem → Type 0) (xs : Items)
      → All P xs
      → All P (sort_slowest_first duration xs)
  unfolding sort_slowest_first
  All-sort P [] h = tt
  All-sort P (x ∷ xs) h = All-insert_by P x (sort_slowest_first duration xs) h.0 (All-sort P xs h.1)

  insert_by-IsSlowestFirst :
      (x : BenchmarkQueueItem) (xs : Items)
      → IsSlowestFirst xs
      → IsSlowestFirst (insert_by duration x xs)
  unfolding insert_by IsSlowestFirst
  insert_by-IsSlowestFirst x [] h = (tt, tt)
  insert_by-IsSlowestFirst x (y ∷ ys) h = elim (Bool-cases (ltb (duration x) (duration y))) [
    | inl e ↦ rw e (
      All-insert_by (λ z. duration z ≤ duration y) x ys (ground (arith, e)) h.0,
      insert_by-IsSlowestFirst x ys h.1,
    )
    | inr e ↦
        let le : duration y ≤ duration x = ground (arith, e) in
        rw e ((le, All-weaken (duration y) (duration x) ys le h.0), h)
  ]

  insert_by-lasting :
      (d : ℕ) (x : BenchmarkQueueItem) (xs : Items)
      → lasting d (insert_by duration x xs) ≡ lasting d (x ∷ xs)
  unfolding insert_by
  insert_by-lasting d x [] = refl
  insert_by-lasting d x (y ∷ ys) = ground (arith, insert_by-lasting d x ys)

  sort-IsSlowestFirst : (xs : Items) → IsSlowestFirst (sort_slowest_first duration xs)
  unfolding sort_slowest_first IsSlowestFirst
  sort-IsSlowestFirst [] = tt
  sort-IsSlowestFirst (x ∷ xs) =
      insert_by-IsSlowestFirst x (sort_slowest_first duration xs) (sort-IsSlowestFirst xs)

  sort-lasting : (d : ℕ) (xs : Items) → lasting d (sort_slowest_first duration xs) ≡ lasting d xs
  unfolding sort_slowest_first
  sort-lasting d [] = refl
  sort-lasting d (x ∷ xs) =
      insert_by-lasting d x (sort_slowest_first duration xs) ∙ ground (arith, sort-lasting d xs)

  -- Sorting puts no item before one that took longer, and keeps the items of each duration, all of
  -- them and in their order.
  pub sort_slowest_first_stable :
      (xs : Items)
      → IsSlowestFirst (sort_slowest_first duration xs)
        × ((d : ℕ) → lasting d (sort_slowest_first duration xs) ≡ lasting d xs)
  sort_slowest_first_stable xs = (sort-IsSlowestFirst xs, λ d. sort-lasting d xs)
