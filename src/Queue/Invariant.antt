-- ===== src/Queue/Invariant.antt =====
-- What holds of the queue of benchmark-web/src/models/queue.rs between two of its methods, as long
-- as no item is retried: every id is in `all_items` once, `inner` holds the pending items in their
-- order, and only items marked RUNNING are among the running ones.
use llm_benchmark.Common.{
  ℕ, true, false, String, ◌≡◌, refl, sym, ap, ◌∙◌, inl, inr, [], ◌∷◌, ◌++◌, some, str-cases,
  Bool-cases, is_some, All, All-append,
}
use llm_benchmark.Status.{QueueItemStatus, is_pending}
use llm_benchmark.Item.{BenchmarkQueueItem}
use llm_benchmark.Queue.Entries.{update_first, get_entry, remove_entry, get_entry-remove_entry}
use llm_benchmark.Queue.Ids.{
  ids, pending_ids, status_at, Fresh, Distinct, drop_id-of_Fresh, Distinct-append, ids-append,
  pending_ids-append, status_at-append, Fresh-of_status_at,
}
use llm_benchmark.Queue.Updates.{
  ids-update_first, status_at-update_first_ne, pending_ids-update_first,
}
use llm_benchmark.Queue.{
  InnerQueue, empty, add, complete_current, fail_current, finish, finish_current,
}

abbrev pub IsPending : BenchmarkQueueItem → Type 0
IsPending x = is_pending x.status ≡ true

-- Each running id is RUNNING in the list of all items.
abbrev pub Held : InnerQueue → Type 0
Held q =
    (k : String)
    → is_some (get_entry k q.current_items) ≡ true
    → status_at k q.all_items ≡ some QueueItemStatus.running

pub record Inv (q : InnerQueue) : Type 0 where
  pub distinct : Distinct (ids q.all_items)
  pub waiting : ids q.inner ≡ pending_ids q.all_items
  pub unstarted : All IsPending q.inner
  pub held : Held q

pub empty-Inv : Inv empty
unfolding empty get_entry
empty-Inv = record { distinct = tt; waiting = refl; unstarted = tt; held = λ k h. cc }

pub add-Inv :
    (item : BenchmarkQueueItem) (q : InnerQueue)
    → Inv q
    → IsPending item
    → Fresh item.id (ids q.all_items)
    → Inv (add item q)
unfolding add
add-Inv item q v p fresh = record {
  distinct =
      rw (ids-append q.all_items item) (Distinct-append item.id (ids q.all_items) v.distinct fresh);
  waiting =
      ids-append q.inner item
      ∙ ap (λ js. js ++ item.id ∷ []) v.waiting
      ∙ sym (pending_ids-append q.all_items item p);
  unstarted = All-append IsPending q.inner (item ∷ []) v.unstarted (p, tt);
  held = λ k h. status_at-append k q.all_items item QueueItemStatus.running (v.held k h);
}

pub cc_false : false ≡ true → ⊥
cc_false e = cc

-- Removing the running item at `k` after an update of the entry at `k`.
pub held-update :
    (q : InnerQueue) (k : String) (f : BenchmarkQueueItem → BenchmarkQueueItem)
    → ((x : BenchmarkQueueItem) → x.id ≡ k → (f x).id ≡ x.id)
    → Held q
    → (j : String) → is_some (get_entry j (remove_entry k q.current_items)) ≡ true
    → status_at j (update_first k f q.all_items) ≡ some QueueItemStatus.running
held-update q k f same held j h = elim (str-cases k j) [
  | inl (_, t) ↦ absurd (cc_false (rw (get_entry-remove_entry k j q.current_items, t) at h))
  | inr (_, t) ↦
      status_at-update_first_ne k f same j q.all_items t
      ∙ held j (rw (get_entry-remove_entry k j q.current_items, t) at h)
]

finish_current-Inv :
    (status : QueueItemStatus) (now : ℕ) (k : String) (q : InnerQueue)
    → is_pending status ≡ false
    → Inv q
    → Inv (finish_current status now k q).1
unfolding finish_current
finish_current-Inv status now k q np v = elim (Bool-cases (is_some (get_entry k q.current_items))) [
  | inr e ↦ rw (e, finish_current) v
  | inl e ↦
      rw (e, finish_current)
        (record {
          distinct =
              rw (ids-update_first k (finish status now) (λ x _. refl) q.all_items) v.distinct;
          waiting =
              v.waiting
              ∙ sym (
                  pending_ids-update_first k (finish status now) (λ x _. refl) q.all_items (λ x. np)
                    v.distinct
                  ∙ drop_id-of_Fresh k (pending_ids q.all_items) (
                      Fresh-of_status_at k q.all_items QueueItemStatus.running v.distinct
                        (v.held k e) refl));
          unstarted = v.unstarted;
          held = held-update q k (finish status now) (λ x _. refl) v.held;
        })
]

pub complete_current-Inv :
    (now : ℕ) (k : String) (q : InnerQueue) → Inv q → Inv (complete_current now k q).1
unfolding complete_current
complete_current-Inv now k q = finish_current-Inv QueueItemStatus.completed now k q refl

pub fail_current-Inv :
    (now : ℕ) (k : String) (q : InnerQueue) → Inv q → Inv (fail_current now k q).1
unfolding fail_current
fail_current-Inv now k q = finish_current-Inv QueueItemStatus.failed now k q refl
