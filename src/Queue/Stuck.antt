-- ===== src/Queue/Stuck.antt =====
-- The items of benchmark-web/src/models/queue.rs that are RUNNING in the list of all items and that
-- no worker holds, which is how `cancel_item` leaves a running item.
use llm_benchmark.Common.{
  ℕ, true, String, ◌≡◌, refl, sym, ap, ◌∙◌, inl, inr, List, [], ◌∷◌, none, some, not, str-cases,
  Bool-cases, is_some, any,
}
use llm_benchmark.Status.{QueueItemStatus, is_pending, is_clearable}
use llm_benchmark.Item.{BenchmarkQueueItem, cancel}
use llm_benchmark.Queue.Entries.{
  has_id, get_entry, remove_entry, get_entry-insert_entry, get_entry-remove_entry,
}
use llm_benchmark.Queue.Ids.{Items, ids, status_at, status_at-append, status_at-pending_front}
use llm_benchmark.Queue.Updates.{status_at-update_first_ne, status_at-update_first_same}
use llm_benchmark.Queue.{
  InnerQueue, add, add_all, poll_next, poll_from, set_running, complete_current, fail_current,
  finish, finish_current, cancel_item, clear_pending, clear_terminal_items, set_session_id,
  link_session,
}
use llm_benchmark.Queue.Invariant.{Inv, cc_false}
use llm_benchmark.Queue.Polling.{replace, replace_id, front_pending}
use llm_benchmark.Queue.Clearing.{cancel_id, cancel_item-Inv, status_at-retain}
use llm_benchmark.Queue.Outcomes.{cancel_item_status}
use llm_benchmark.Queue.Steps.{
  Step, adds, polls, completes, fails, cancels, links, clears_pending, clears_terminal, clears_all,
  Reach, here, next, Reach-Inv,
}

pub record Stuck (k : String) (q : InnerQueue) : Type 0 where
  pub shown : status_at k q.all_items ≡ some QueueItemStatus.running
  pub unheld : get_entry k q.current_items ≡ none

add_all-Stuck :
    (k : String) (items : Items) (q : InnerQueue) → Stuck k q → Stuck k (add_all items q)
unfolding add_all add
add_all-Stuck k [] q s = s
add_all-Stuck k (x ∷ xs) q s = add_all-Stuck k xs (add x q) (record {
  shown = status_at-append k q.all_items x QueueItemStatus.running s.shown;
  unheld = s.unheld;
})

poll_from-Stuck :
    (k : String) (xs : Items) (q : InnerQueue)
    → Inv q
    → q.inner ≡ xs
    → Stuck k q
    → Stuck k (poll_from xs q).1
unfolding poll_from set_running replace
poll_from-Stuck k [] q v e s = s
poll_from-Stuck k (front ∷ rest) q v e s = elim (str-cases front.id k) [
  | inl (same, _) ↦
      absurd (pending_running (sym waits ∙ ap (λ j. status_at j q.all_items) same ∙ s.shown))
  | inr (_, t) ↦ record {
    shown =
        status_at-update_first_ne front.id (replace front) (replace_id front) k q.all_items t
        ∙ s.shown;
    unheld = get_entry-insert_entry front.id k (set_running front) q.current_items ∙ rw t s.unheld;
  }
]
  where
    waits : status_at front.id q.all_items ≡ some QueueItemStatus.pending
    waits =
        status_at-pending_front front.id (ids rest) q.all_items v.distinct
          (front_pending front rest q v e)

    pending_running : some QueueItemStatus.pending ≡ some QueueItemStatus.running → ⊥
    pending_running h = cc

pub remove-unheld :
    (j k : String) (m : List (String × BenchmarkQueueItem))
    → get_entry k m ≡ none
    → get_entry k (remove_entry j m) ≡ none
remove-unheld j k m h = elim (str-cases j k) [
  | inl (_, t) ↦ get_entry-remove_entry j k m ∙ rw t refl
  | inr (_, t) ↦ get_entry-remove_entry j k m ∙ rw t h
]

finish_current-Stuck :
    (status : QueueItemStatus) (now : ℕ) (j k : String) (q : InnerQueue)
    → Stuck k q
    → Stuck k (finish_current status now j q).1
unfolding finish_current
finish_current-Stuck status now j k q s =
    elim (Bool-cases (is_some (get_entry j q.current_items))) [
      | inr e ↦ rw (e, finish_current) s
      | inl e ↦ elim (str-cases j k) [
        | inl (same, _) ↦ absurd (held_unheld (rw same at e))
        | inr (_, t) ↦
            rw (e, finish_current)
              (record {
                shown =
                    status_at-update_first_ne j (finish status now) (λ x _. refl) k q.all_items t
                    ∙ s.shown;
                unheld = remove-unheld j k q.current_items s.unheld;
              })
      ]
    ]
  where
    held_unheld : is_some (get_entry k q.current_items) ≡ true → ⊥
    held_unheld h = cc_false (rw s.unheld at h)

cancel_item-Stuck :
    (now : ℕ) (j k : String) (q : InnerQueue) → Stuck k q → Stuck k (cancel_item now j q).1
unfolding cancel_item cancel
cancel_item-Stuck now j k q s = elim (str-cases j k) [
  | inl (same, _) ↦ rw same (
      let (x, running, after, _, gone) =
        cancel_item_status now k q QueueItemStatus.running s.shown in
      record { shown = after ∙ rw running (ap some running); unheld = gone })
  | inr (_, t) ↦ elim (Bool-cases (any (has_id j) q.all_items)) [
    | inr e ↦ rw (e, cancel_item) s
    | inl e ↦
        rw (e, cancel_item)
          (record {
            shown =
                status_at-update_first_ne j (cancel now) (λ x _. cancel_id now x) k q.all_items t
                ∙ s.shown;
            unheld = remove-unheld j k q.current_items s.unheld;
          })
  ]
]

-- Every step but `clear_all`.
abbrev pub Keeps : {q r : InnerQueue} → Step q r → Type 0
Keeps clears_all = ⊥
Keeps _ = Unit {0}

abbrev pub NeverCleared : {q r : InnerQueue} → Reach q r → Type 0
NeverCleared here = Unit {0}
NeverCleared (next h s) = NeverCleared h × Keeps s

Step-Stuck :
    (k : String) {q r : InnerQueue} (s : Step q r) → Keeps s → Inv q → Stuck k q → Stuck k r
unfolding poll_next complete_current fail_current set_session_id link_session clear_pending
    clear_terminal_items
Step-Stuck k (adds items a) h v s = add_all-Stuck k items _ s
Step-Stuck k {q} polls h v s = poll_from-Stuck k q.inner q v refl s
Step-Stuck k (completes now j) h v s = finish_current-Stuck QueueItemStatus.completed now j k _ s
Step-Stuck k (fails now j) h v s = finish_current-Stuck QueueItemStatus.failed now j k _ s
Step-Stuck k (cancels now j) h v s = cancel_item-Stuck now j k _ s
Step-Stuck k {q} (links j sid) h v s = record {
  shown =
      status_at-update_first_same j (link_session sid) (λ x _. refl) k q.all_items (λ x. refl)
      ∙ s.shown;
  unheld = s.unheld;
}
Step-Stuck k {q} clears_pending h v s = record {
  shown = status_at-retain (λ t. not (is_pending t)) refl k q.all_items s.shown;
  unheld = s.unheld;
}
Step-Stuck k {q} clears_terminal h v s = record {
  shown = status_at-retain (λ t. not (is_clearable t)) refl k q.all_items s.shown;
  unheld = s.unheld;
}
Step-Stuck k clears_all h v s = absurd h

-- A running item that is cancelled stays RUNNING for ever: whatever calls follow the cancellation,
-- short of `clear_all` and of retries, its entry still says RUNNING and no worker holds it.
pub cancelled_running_for_ever :
    (now : ℕ) (k : String) (q : InnerQueue) {r : InnerQueue} (h : Reach (cancel_item now k q).1 r)
    → NeverCleared h
    → Inv q
    → status_at k q.all_items ≡ some QueueItemStatus.running
    → Stuck k r
unfolding cancel
cancelled_running_for_ever now k q here n v e =
    let (x, running, after, _, gone) = cancel_item_status now k q QueueItemStatus.running e in
    record { shown = after ∙ rw running (ap some running); unheld = gone }
cancelled_running_for_ever now k q (next h s) n v e =
    Step-Stuck k s n.1 (Reach-Inv (cancel_item-Inv now k q v) h)
      (cancelled_running_for_ever now k q h n.0 v e)
