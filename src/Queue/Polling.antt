-- ===== src/Queue/Polling.antt =====
-- How `poll_next` of benchmark-web/src/models/queue.rs changes the queue: it keeps the invariant and
-- takes the oldest item that is still pending.
use llm_benchmark.Common.{
  ℕ, zero, suc, length, String, ◌≡◌, refl, sym, ap, ◌∙◌, inl, inr, List, [], ◌∷◌, none, some, arith,
  str-cases, str_eq_self,
}
use llm_benchmark.Status.{QueueItemStatus}
use llm_benchmark.Item.{BenchmarkQueueItem}
use llm_benchmark.Queue.Entries.{update_first, get_entry, insert_entry, get_entry-insert_entry}
use llm_benchmark.Queue.Ids.{
  Items, ids, pending_ids, status_at, Fresh, drop_id, drop_id-of_Fresh, Distinct-pending_ids,
  status_at-find_id, status_at-pending_front,
}
use llm_benchmark.Queue.Updates.{
  ids-update_first, status_at-update_first_ne, pending_ids-update_first,
  status_at-update_first_self,
}
use llm_benchmark.Queue.{InnerQueue, empty, poll_next, set_running, poll_from}
use llm_benchmark.Queue.Invariant.{Held, Inv}

-- What `poll_next` writes over the first entry with the id of the front.
unfoldable pub replace : BenchmarkQueueItem → BenchmarkQueueItem → BenchmarkQueueItem
replace front _ = set_running front

pub replace_id : (front x : BenchmarkQueueItem) → x.id ≡ front.id → (replace front x).id ≡ x.id
unfolding replace set_running
replace_id front x h = sym h

module _ (front : BenchmarkQueueItem) (rest : Items) (q : InnerQueue) (v : Inv q)
    (e : q.inner ≡ front ∷ rest) where
  -- The front of the queue is the first pending id.
  pub front_pending : front.id ∷ ids rest ≡ pending_ids q.all_items
  front_pending = ap ids (sym e) ∙ v.waiting

  rest_Fresh : Fresh front.id (ids rest)
  rest_Fresh = (rw (← front_pending) at (Distinct-pending_ids q.all_items v.distinct)).0

  pub poll_waiting : ids rest ≡ pending_ids (update_first front.id (replace front) q.all_items)
  unfolding replace set_running
  poll_waiting = sym (
      pending_ids-update_first front.id (replace front) (replace_id front) q.all_items (λ x. refl)
        v.distinct
      ∙ ap (drop_id front.id) (sym front_pending)
      ∙ rw (str_eq_self front.id) (drop_id-of_Fresh front.id (ids rest) rest_Fresh))

  pub front_running :
      status_at front.id (update_first front.id (replace front) q.all_items)
      ≡ some QueueItemStatus.running
  unfolding replace set_running
  front_running =
      let at_front =
        status_at-pending_front front.id (ids rest) q.all_items v.distinct front_pending in
      let (x, found, _, _) = status_at-find_id front.id q.all_items at_front in
      status_at-update_first_self front.id (replace front) q.all_items x (replace_id front) found

  poll_held : Held (record {
    inner = rest;
    all_items = update_first front.id (replace front) q.all_items;
    current_items = insert_entry front.id (set_running front) q.current_items;
  })
  poll_held j h = elim (str-cases front.id j) [
    | inl (same, t) ↦ rw (← same) front_running
    | inr (_, t) ↦
        status_at-update_first_ne front.id (replace front) (replace_id front) j q.all_items t
        ∙ v.held j
            (rw (get_entry-insert_entry front.id j (set_running front) q.current_items, t) at h)
  ]

  poll_front-Inv : Inv (poll_from (front ∷ rest) q).1
  unfolding poll_from replace set_running
  poll_front-Inv = record {
    distinct =
        rw (ids-update_first front.id (replace front) (replace_id front) q.all_items) v.distinct;
    waiting = poll_waiting;
    unstarted = (rw e at v.unstarted).1;
    held = poll_held;
  }

poll_from-Inv : (xs : Items) (q : InnerQueue) → Inv q → q.inner ≡ xs → Inv (poll_from xs q).1
unfolding poll_from
poll_from-Inv [] q v e = v
poll_from-Inv (front ∷ rest) q v e = poll_front-Inv front rest q v e

pub poll_next-Inv : (q : InnerQueue) → Inv q → Inv (poll_next q).1
unfolding poll_next
poll_next-Inv q v = poll_from-Inv q.inner q v refl

poll_next-cons :
    (front : BenchmarkQueueItem) (rest : Items) (q : InnerQueue) (v : Inv q)
    (e : q.inner ≡ front ∷ rest)
    → poll_next q ≡ (
      some (set_running front),
      record {
        inner = rest;
        all_items = update_first front.id (replace front) q.all_items;
        current_items = insert_entry front.id (set_running front) q.current_items;
      },
    )
unfolding poll_next poll_from replace set_running
poll_next-cons front rest q v e = rw (e, poll_from) refl

-- What `poll_next` does when `k` is the oldest pending id and `js` are the others.
pub record Polled (k : String) (js : List String) (q : InnerQueue) : Type 0 where
  pub item : BenchmarkQueueItem
  pub taken : (poll_next q).0 ≡ some item
  pub at_id : item.id ≡ k
  pub running : item.status ≡ QueueItemStatus.running
  pub shown : status_at k (poll_next q).1.all_items ≡ some QueueItemStatus.running
  pub left : pending_ids (poll_next q).1.all_items ≡ js
  pub tracked : get_entry k (poll_next q).1.current_items ≡ some item

cons_of_ids :
    (k : String) (js : List String) (xs : Items)
    → ids xs ≡ k ∷ js
    → (x : BenchmarkQueueItem) × (rest : Items) × (xs ≡ x ∷ rest) × (x.id ≡ k) × (ids rest ≡ js)
cons_of_ids k js [] e = cc
cons_of_ids k js (x ∷ rest) e = (x, rest, refl, ground arith, ground arith)

-- Polling takes the oldest pending item: it comes back RUNNING, is shown RUNNING in the list of all
-- items and kept among the running ones, and the other pending items wait in their order.
pub poll_next_oldest :
    (k : String) (js : List String) (q : InnerQueue)
    → Inv q
    → pending_ids q.all_items ≡ k ∷ js
    → Polled k js q
unfolding set_running
poll_next_oldest k js q v e =
    let (front, rest, split, at_k, others) = cons_of_ids k js q.inner (v.waiting ∙ e) in
    let polled = poll_next-cons front rest q v split in
    record {
      item = set_running front;
      taken = rw polled refl;
      at_id = at_k;
      running = refl;
      shown = rw polled (rw (← at_k) (front_running front rest q v split));
      left = rw polled (sym (poll_waiting front rest q v split) ∙ others);
      tracked =
          rw (polled, ← at_k)
            (get_entry-insert_entry front.id front.id (set_running front) q.current_items
              ∙ rw (str_eq_self front.id) refl);
    }

-- The ids that come out when the queue is polled `n` times, up to the first poll that fails.
unfoldable pub polled_ids : ℕ → InnerQueue → List String
polled_ids zero q = []
polled_ids (suc n) q = elim (poll_next q).0 [
  | none ↦ []
  | some item ↦ item.id ∷ polled_ids n (poll_next q).1
]

-- Polling as often as there are pending items yields all of them, oldest first.
pub polled_ids-pending_ids :
    (js : List String) (q : InnerQueue)
    → Inv q
    → pending_ids q.all_items ≡ js
    → polled_ids (length js) q ≡ js
unfolding polled_ids
polled_ids-pending_ids [] q v e = refl
polled_ids-pending_ids (k ∷ js) q v e =
    let p = poll_next_oldest k js q v e in
    rw (p.taken, polled_ids, p.at_id)
      (ap (◌∷◌ k) (polled_ids-pending_ids js (poll_next q).1 (poll_next-Inv q v) p.left))

pub poll_next-empty : poll_next empty ≡ (none, empty)
unfolding poll_next poll_from empty
poll_next-empty = refl
