-- ===== src/Queue/Endings.antt =====
-- A running item of benchmark-web/src/models/queue.rs that was completed or failed is gone for good.
use llm_benchmark.Common.{
  ℕ, Bool, true, false, String, ◌≡◌, refl, sym, ap, ◌∙◌, inl, inr, [], ◌∷◌, none, some, arith,
  Option-cases, Bool-cases, is_some, retain, any, All, str_eq, subst,
}
use llm_benchmark.Status.{QueueItemStatus}
use llm_benchmark.Item.{BenchmarkQueueItem}
use llm_benchmark.Queue.Entries.{has_id, get_entry, get_entry-insert_entry}
use llm_benchmark.Queue.Ids.{
  Items, ids, status_at, Fresh, Fresh-append, ids-append, Fresh-of_status_at,
}
use llm_benchmark.Queue.{
  InnerQueue, add, add_all, poll_next, poll_from, set_running, complete_current, fail_current,
  finish_current, cancel_item, clear_pending, clear_terminal_items, clear_all, empty,
  set_session_id,
}
use llm_benchmark.Queue.Invariant.{Inv, cc_false}
use llm_benchmark.Queue.Clearing.{Fresh-without}
use llm_benchmark.Queue.Outcomes.{
  Ending, final_status, end_current, end_current-missing, end_current-held, ended, ended-released,
  ended_status,
}
use llm_benchmark.Queue.Steps.{
  Step, adds, polls, completes, fails, cancels, links, clears_pending, clears_terminal, clears_all,
  Reach, here, next,
}
use llm_benchmark.Queue.Stuck.{remove-unheld}

-- No place of the waiting line has the id, and no worker holds an item of that id.
pub record Gone (k : String) (q : InnerQueue) : Type 0 where
  pub unqueued : Fresh k (ids q.inner)
  pub unheld : get_entry k q.current_items ≡ none

add_all-Gone :
    (k : String) (items : Items) (q : InnerQueue)
    → All (λ x. str_eq x.id k ≡ false) items
    → Gone k q
    → Gone k (add_all items q)
unfolding add_all add
add_all-Gone k [] q others g = g
add_all-Gone k (x ∷ xs) q others g = add_all-Gone k xs (add x q) others.1 (record {
  unqueued = rw (ids-append q.inner x) (Fresh-append k x.id (ids q.inner) g.unqueued others.0);
  unheld = g.unheld;
})

poll_from-Gone :
    (k : String) (xs : Items) (q : InnerQueue) → q.inner ≡ xs → Gone k q → Gone k (poll_from xs q).1
unfolding poll_from set_running
poll_from-Gone k [] q e g = g
poll_from-Gone k (front ∷ rest) q e g =
    let fresh : Fresh k (ids (front ∷ rest)) = subst (λ ys. Fresh k (ids ys)) e g.unqueued in
    record {
      unqueued = fresh.1;
      unheld =
          get_entry-insert_entry front.id k (set_running front) q.current_items
          ∙ rw fresh.0 g.unheld;
    }

finish_current-Gone :
    (status : QueueItemStatus) (now : ℕ) (j k : String) (q : InnerQueue)
    → Gone k q
    → Gone k (finish_current status now j q).1
unfolding finish_current
finish_current-Gone status now j k q g = elim (Bool-cases (is_some (get_entry j q.current_items))) [
  | inr e ↦ rw (e, finish_current) g
  | inl e ↦
      rw (e, finish_current)
        (record { unqueued = g.unqueued; unheld = remove-unheld j k q.current_items g.unheld })
]

cancel_item-Gone :
    (now : ℕ) (j k : String) (q : InnerQueue) → Gone k q → Gone k (cancel_item now j q).1
unfolding cancel_item
cancel_item-Gone now j k q g = elim (Bool-cases (any (has_id j) q.all_items)) [
  | inr e ↦ rw (e, cancel_item) g
  | inl e ↦
      rw (e, cancel_item)
        (record {
          unqueued = Fresh-without j k q.inner g.unqueued;
          unheld = remove-unheld j k q.current_items g.unheld;
        })
]

-- No added item has the id.
abbrev pub AddsOthers : String → {q r : InnerQueue} → Step q r → Type 0
AddsOthers k (adds items a) = All (λ x. str_eq x.id k ≡ false) items
AddsOthers k _ = Unit {0}

abbrev pub NeverAdded : String → {q r : InnerQueue} → Reach q r → Type 0
NeverAdded k here = Unit {0}
NeverAdded k (next h s) = NeverAdded k h × AddsOthers k s

Fresh-kept :
    (keep : BenchmarkQueueItem → Bool) (k : String) (xs : Items)
    → Fresh k (ids xs)
    → Fresh k (ids (retain keep xs))
Fresh-kept keep k [] h = tt
Fresh-kept keep k (x ∷ xs) h = ground (arith, h.0, Fresh-kept keep k xs h.1)

Step-Gone : (k : String) {q r : InnerQueue} (s : Step q r) → AddsOthers k s → Gone k q → Gone k r
unfolding poll_next complete_current fail_current set_session_id clear_pending clear_terminal_items
    clear_all empty get_entry
Step-Gone k (adds items a) others g = add_all-Gone k items _ others g
Step-Gone k {q} polls others g = poll_from-Gone k q.inner q refl g
Step-Gone k (completes now j) others g = finish_current-Gone QueueItemStatus.completed now j k _ g
Step-Gone k (fails now j) others g = finish_current-Gone QueueItemStatus.failed now j k _ g
Step-Gone k (cancels now j) others g = cancel_item-Gone now j k _ g
Step-Gone k (links j sid) others g = record { unqueued = g.unqueued; unheld = g.unheld }
Step-Gone k {q} clears_pending others g = record {
  unqueued = Fresh-kept _ k q.inner g.unqueued;
  unheld = g.unheld;
}
Step-Gone k {q} clears_terminal others g = record {
  unqueued = Fresh-kept _ k q.inner g.unqueued;
  unheld = g.unheld;
}
Step-Gone k clears_all others g = record { unqueued = tt; unheld = refl }

Reach-Gone : (k : String) {q r : InnerQueue} (h : Reach q r) → NeverAdded k h → Gone k q → Gone k r
Reach-Gone k here n g = g
Reach-Gone k (next h s) n g = Step-Gone k s n.1 (Reach-Gone k h n.0 g)

ended-Gone :
    (e : Ending) (now : ℕ) (k : String) (q : InnerQueue)
    → Inv q
    → is_some (get_entry k q.current_items) ≡ true
    → Gone k (ended e now k q)
unfolding ended
ended-Gone e now k q v held = record {
  unqueued =
      rw v.waiting
        (Fresh-of_status_at k q.all_items QueueItemStatus.running v.distinct (v.held k held) refl);
  unheld = ended-released e now k q;
}

-- A running item is ended once: the call that finds it stores its final state, and after whatever
-- other calls, short of retries and of new items with its id, every call that would end it, in either
-- way, reports false and changes nothing.
pub ended_once :
    (e later_e : Ending) (now later : ℕ) (k : String) (q : InnerQueue) {t : InnerQueue}
    (h : Reach (end_current e now k q).1 t)
    → NeverAdded k h
    → Inv q
    → (end_current e now k q).0 ≡ true
    → (status_at k (end_current e now k q).1.all_items ≡ some (final_status e))
      × (end_current later_e later k t ≡ (false, t))
ended_once e later_e now later k q {t = t} h others v done =
    elim (Option-cases (get_entry k q.current_items)) [
      | inl gone ↦
          absurd (cc_false (ap (λ r. r.0) (sym (end_current-missing e now k q gone)) ∙ done))
      | inr (item, at_k) ↦
          let held : is_some (get_entry k q.current_items) ≡ true = rw at_k refl in
          let after = end_current-held e now k q item at_k in
          let start : Gone k (end_current e now k q).1 =
            subst (Gone k) (sym (ap (λ r. r.1) after)) (ended-Gone e now k q v held) in
          (
            ap (λ r. status_at k r.1.all_items) after ∙ ended_status e now k q v held,
            end_current-missing later_e later k t (Reach-Gone k h others start).unheld,
          )
    ]
