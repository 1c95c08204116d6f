-- ===== src/Queue/Clearing.antt =====
-- How `cancel_item`, `set_session_id` and the methods that clear items, of
-- benchmark-web/src/models/queue.rs, change the queue.
use llm_benchmark.Common.{
  ℕ, Bool, true, false, String, ◌≡◌, refl, sym, ap, ◌∙◌, inl, inr, [], ◌∷◌, some, if◌then◌else◌,
  not, arith, Bool-cases, retain, any, All, All-retain, subst,
}
use llm_benchmark.Status.{QueueItemStatus, is_pending, is_clearable}
use llm_benchmark.Item.{BenchmarkQueueItem, cancel}
use llm_benchmark.Queue.Entries.{has_id}
use llm_benchmark.Queue.Ids.{
  Items, ids, pending_ids, status_at, Fresh, Distinct, drop_id, Fresh-drop_id,
}
use llm_benchmark.Queue.Updates.{
  ids-update_first, pending_ids-update_first, pending_ids-update_first_same,
  status_at-update_first_same,
}
use llm_benchmark.Queue.{
  InnerQueue, cancel_item, clear_pending, clear_terminal_items, set_session_id, link_session,
}
use llm_benchmark.Queue.Invariant.{IsPending, Inv, held-update}

cancel-never-pending : (now : ℕ) (x : BenchmarkQueueItem) → is_pending (cancel now x).status ≡ false
unfolding cancel
cancel-never-pending now x = ground arith

pub cancel_id : (now : ℕ) (x : BenchmarkQueueItem) → (cancel now x).id ≡ x.id
unfolding cancel
cancel_id now x = ground arith

-- Filtering `inner` by id, also where the code skips the filter because no item has the id.
ids-without :
    (k : String) (xs : Items)
    → ids (if any (has_id k) xs then retain (λ item. not (has_id k item)) xs else xs)
      ≡ drop_id k (ids xs)
ids-without k xs = elim (Bool-cases (any (has_id k) xs)) [
  | inl e ↦ rw e (filtered xs)
  | inr e ↦ rw e (sym (untouched xs e))
]
  where
    filtered : (ys : Items) → ids (retain (λ item. not (has_id k item)) ys) ≡ drop_id k (ids ys)
    filtered [] = refl
    filtered (y ∷ ys) = ground (arith, filtered ys)

    untouched : (ys : Items) → any (has_id k) ys ≡ false → drop_id k (ids ys) ≡ ids ys
    untouched [] h = refl
    untouched (y ∷ ys) h = ground (arith, untouched ys)

pub Fresh-without :
    (j k : String) (xs : Items)
    → Fresh k (ids xs)
    → Fresh k (ids (if any (has_id j) xs then retain (λ item. not (has_id j item)) xs else xs))
Fresh-without j k xs h = subst (Fresh k) (sym (ids-without j xs)) (Fresh-drop_id k j (ids xs) h)

All-without :
    (k : String) (xs : Items)
    → All IsPending xs
    → All IsPending (if any (has_id k) xs then retain (λ item. not (has_id k item)) xs else xs)
All-without k xs h = elim (Bool-cases (any (has_id k) xs)) [
  | inl e ↦ rw e (All-retain IsPending _ xs h)
  | inr e ↦ rw e h
]

pub cancel_item-Inv : (now : ℕ) (k : String) (q : InnerQueue) → Inv q → Inv (cancel_item now k q).1
unfolding cancel_item
cancel_item-Inv now k q v = elim (Bool-cases (any (has_id k) q.all_items)) [
  | inr e ↦ rw (e, cancel_item) v
  | inl e ↦
      rw (e, cancel_item)
        (record {
          distinct =
              rw (ids-update_first k (cancel now) (λ x _. cancel_id now x) q.all_items) v.distinct;
          waiting =
              ids-without k q.inner
              ∙ ap (drop_id k) v.waiting
              ∙ sym (
                  pending_ids-update_first k (cancel now) (λ x _. cancel_id now x) q.all_items
                    (cancel-never-pending now) v.distinct);
          unstarted = All-without k q.inner v.unstarted;
          held = held-update q k (cancel now) (λ x _. cancel_id now x) v.held;
        })
]

pub set_session_id-Inv : (k sid : String) (q : InnerQueue) → Inv q → Inv (set_session_id k sid q)
unfolding set_session_id
set_session_id-Inv k sid q v = record {
  distinct = rw (ids-update_first k (link_session sid) (λ x _. refl) q.all_items) v.distinct;
  waiting =
      v.waiting
      ∙ sym (
          pending_ids-update_first_same k (link_session sid) (λ x _. refl) q.all_items (λ x. refl));
  unstarted = v.unstarted;
  held = λ j h.
      status_at-update_first_same k (link_session sid) (λ x _. refl) j q.all_items (λ x. refl)
      ∙ v.held j h;
}

-- A filter by state that drops no RUNNING item.
module _ (keep : QueueItemStatus → Bool) (keeps : keep QueueItemStatus.running ≡ true) where
  pub status_at-retain :
      (k : String) (xs : Items)
      → status_at k xs ≡ some QueueItemStatus.running
      → status_at k (retain (λ item. keep item.status) xs) ≡ some QueueItemStatus.running
  status_at-retain k [] e = cc
  status_at-retain k (x ∷ xs) e = ground (arith, keeps, status_at-retain k xs)

  Fresh-retain :
      (k : String) (xs : Items)
      → Fresh k (ids xs)
      → Fresh k (ids (retain (λ item. keep item.status) xs))
  Fresh-retain k [] h = tt
  Fresh-retain k (x ∷ xs) h = ground (arith, Fresh-retain k xs h.1)

  Distinct-retain :
      (xs : Items) → Distinct (ids xs) → Distinct (ids (retain (λ item. keep item.status) xs))
  Distinct-retain [] d = tt
  Distinct-retain (x ∷ xs) d = ground (arith, Distinct-retain xs d.1, Fresh-retain x.id xs d.0)

pub pending_ids-none :
    (xs : Items) → pending_ids (retain (λ item. not (is_pending item.status)) xs) ≡ []
pending_ids-none [] = refl
pending_ids-none (x ∷ xs) = ground (arith, pending_ids-none xs)

pub retain-none :
    (xs : Items) → All IsPending xs → retain (λ item. not (is_pending item.status)) xs ≡ []
retain-none [] h = refl
retain-none (x ∷ xs) h = ground (arith, retain-none xs h.1)

pub pending_ids-unclearable :
    (xs : Items) → pending_ids (retain (λ item. not (is_clearable item.status)) xs) ≡ pending_ids xs
pending_ids-unclearable [] = refl
pending_ids-unclearable (x ∷ xs) = ground (arith, pending_ids-unclearable xs)

pub retain-unclearable :
    (xs : Items) → All IsPending xs → retain (λ item. not (is_clearable item.status)) xs ≡ xs
retain-unclearable [] h = refl
retain-unclearable (x ∷ xs) h = ground (arith, retain-unclearable xs h.1)

pub clear_pending-Inv : (q : InnerQueue) → Inv q → Inv (clear_pending q)
unfolding clear_pending
clear_pending-Inv q v = record {
  distinct = Distinct-retain (λ s. not (is_pending s)) refl q.all_items v.distinct;
  waiting = ap ids (retain-none q.inner v.unstarted) ∙ sym (pending_ids-none q.all_items);
  unstarted = rw (retain-none q.inner v.unstarted) tt;
  held = λ k h. status_at-retain (λ s. not (is_pending s)) refl k q.all_items (v.held k h);
}

pub clear_terminal_items-Inv : (q : InnerQueue) → Inv q → Inv (clear_terminal_items q).1
unfolding clear_terminal_items
clear_terminal_items-Inv q v = record {
  distinct = Distinct-retain (λ s. not (is_clearable s)) refl q.all_items v.distinct;
  waiting =
      ap ids (retain-unclearable q.inner v.unstarted)
      ∙ v.waiting
      ∙ sym (pending_ids-unclearable q.all_items);
  unstarted = rw (retain-unclearable q.inner v.unstarted) v.unstarted;
  held = λ k h. status_at-retain (λ s. not (is_clearable s)) refl k q.all_items (v.held k h);
}
