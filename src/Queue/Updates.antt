-- ===== src/Queue/Updates.antt =====
-- How the ids and states that a list of queue items shows change when the first item with an id is
-- updated. Lemmas for benchmark-web/src/models/queue.rs.
use llm_benchmark.Common.{
  false, String, ◌≡◌, refl, inl, inr, [], ◌∷◌, some, arith, str_eq, eq_iff, str-cases,
}
use llm_benchmark.Status.{is_pending}
use llm_benchmark.Item.{BenchmarkQueueItem}
use llm_benchmark.Queue.Entries.{update_first, find_id}
use llm_benchmark.Queue.Ids.{
  Items, ids, pending_ids, status_at, Distinct, drop_id, drop_id-of_Fresh, Fresh-pending_ids,
}

module _ (k : String) (f : BenchmarkQueueItem → BenchmarkQueueItem) where
  module _ (same_id : (x : BenchmarkQueueItem) → x.id ≡ k → (f x).id ≡ x.id) where
    pub ids-update_first : (xs : Items) → ids (update_first k f xs) ≡ ids xs
    unfolding update_first
    ids-update_first [] = refl
    ids-update_first (x ∷ xs) = ground (arith, eq_iff x.id k, same_id x, ids-update_first xs)

    -- The update at `k` leaves the state at every other id alone.
    pub status_at-update_first_ne :
        (j : String) (xs : Items)
        → str_eq k j ≡ false
        → status_at j (update_first k f xs) ≡ status_at j xs
    unfolding update_first
    status_at-update_first_ne j [] h = refl
    status_at-update_first_ne j (x ∷ xs) h = ground (
      arith,
      same_id x,
      eq_iff x.id k,
      eq_iff x.id j,
      eq_iff k j,
      eq_iff (f x).id j,
      status_at-update_first_ne j xs h,
    )

    -- An update after which the item is not pending takes its id off the pending ids.
    pub pending_ids-update_first :
        (xs : Items)
        → ((x : BenchmarkQueueItem) → is_pending (f x).status ≡ false)
        → Distinct (ids xs)
        → pending_ids (update_first k f xs) ≡ drop_id k (pending_ids xs)
    unfolding update_first
    pending_ids-update_first [] p d = refl
    pending_ids-update_first (x ∷ xs) p d = elim (str-cases x.id k) [
      | inl (same, t) ↦ ground (
        arith,
        p x,
        t,
        drop_id-of_Fresh k (pending_ids xs) (Fresh-pending_ids k xs (rw same at d.0)),
      )
      | inr (_, t) ↦ ground (arith, t, pending_ids-update_first xs p d.1)
    ]

    -- An update that keeps the state changes no state and no pending id.
    pub pending_ids-update_first_same :
        (xs : Items)
        → ((x : BenchmarkQueueItem) → (f x).status ≡ x.status)
        → pending_ids (update_first k f xs) ≡ pending_ids xs
    unfolding update_first
    pending_ids-update_first_same [] p = refl
    pending_ids-update_first_same (x ∷ xs) p =
        ground (arith, eq_iff x.id k, p x, same_id x, pending_ids-update_first_same xs p)

    pub status_at-update_first_same :
        (j : String) (xs : Items)
        → ((x : BenchmarkQueueItem) → (f x).status ≡ x.status)
        → status_at j (update_first k f xs) ≡ status_at j xs
    unfolding update_first
    status_at-update_first_same j [] p = refl
    status_at-update_first_same j (x ∷ xs) p =
        ground (arith, eq_iff x.id k, p x, same_id x, status_at-update_first_same j xs p)

  -- The state at the id itself becomes the new one.
  pub status_at-update_first_self :
      (xs : Items) (x : BenchmarkQueueItem)
      → ((y : BenchmarkQueueItem) → y.id ≡ k → (f y).id ≡ y.id)
      → find_id k xs ≡ some x
      → status_at k (update_first k f xs) ≡ some (f x).status
  unfolding update_first find_id
  status_at-update_first_self [] x same e = cc
  status_at-update_first_self (y ∷ xs) x same e =
      ground (arith, eq_iff y.id k, same y, status_at-update_first_self xs x same)
