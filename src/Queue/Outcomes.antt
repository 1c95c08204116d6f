-- ===== src/Queue/Outcomes.antt =====
-- How a running item of benchmark-web/src/models/queue.rs ends: completed, failed or
-- cancelled, and what `clear_terminal_items` reports.
use llm_benchmark.Common.{
  ℕ, Option-cases, Bool, true, false, String, ◌≡◌, refl, sym, ap, ◌∙◌, inl, inr, [], ◌∷◌, none,
  some, not, arith, str_eq_self, is_some, length, retain, any, All,
}
use llm_benchmark.Status.{QueueItemStatus, is_clearable}
use llm_benchmark.Item.{BenchmarkQueueItem, cancel}
use llm_benchmark.Queue.Entries.{
  has_id, update_first, get_entry, remove_entry, get_entry-remove_entry,
}
use llm_benchmark.Queue.Ids.{
  Items, ids, status_at, Fresh, status_at-find_id, any-has_id, Fresh-of_status_at,
}
use llm_benchmark.Queue.Updates.{status_at-update_first_self}
use llm_benchmark.Queue.{
  InnerQueue, complete_current, fail_current, finish, finish_current, cancel_item,
  clear_terminal_items,
}
use llm_benchmark.Queue.Invariant.{IsPending, Inv, cc_false}
use llm_benchmark.Queue.Clearing.{cancel_id, cancel_item-Inv, retain-unclearable}

-- The two ways in which a worker ends its item.
pub data Ending : Type 0 where
  success failure : Ending

abbrev pub final_status : Ending → QueueItemStatus
final_status Ending.success = QueueItemStatus.completed
final_status Ending.failure = QueueItemStatus.failed

abbrev pub end_current : Ending → ℕ → String → InnerQueue → Bool × InnerQueue
end_current Ending.success = complete_current
end_current Ending.failure = fail_current

end_current_lem :
    (e : Ending) (now : ℕ) (k : String) (q : InnerQueue)
    → end_current e now k q ≡ finish_current (final_status e) now k q
unfolding complete_current fail_current
end_current_lem Ending.success now k q = refl
end_current_lem Ending.failure now k q = refl

module _ (e : Ending) (now : ℕ) (k : String) (q : InnerQueue) where
  -- Without a running item at the id nothing happens.
  pub end_current-missing : get_entry k q.current_items ≡ none → end_current e now k q ≡ (false, q)
  unfolding finish_current
  end_current-missing h = end_current_lem e now k q ∙ rw (h, finish_current) refl

  unfoldable pub ended : InnerQueue
  unfolding finish
  ended = record q {
    all_items = update_first k (finish (final_status e) now) q.all_items;
    current_items = remove_entry k q.current_items;
  }

  pub end_current-held :
      (item : BenchmarkQueueItem)
      → get_entry k q.current_items ≡ some item
      → end_current e now k q ≡ (true, ended)
  unfolding finish_current ended
  end_current-held item h = end_current_lem e now k q ∙ rw (h, finish_current) refl

  pub ended-released : get_entry k ended.current_items ≡ none
  unfolding ended
  ended-released = get_entry-remove_entry k k q.current_items ∙ rw (str_eq_self k) refl

  pub ended_status :
      Inv q
      → is_some (get_entry k q.current_items) ≡ true
      → status_at k ended.all_items ≡ some (final_status e)
  unfolding ended finish
  ended_status v h =
      let (x, found, _, _) = status_at-find_id k q.all_items (v.held k h) in
      status_at-update_first_self k (finish (final_status e) now) q.all_items x (λ y _. refl) found

  pub end_current-left :
      Inv q
      → is_some (get_entry k q.current_items) ≡ true
      → (status_at k (end_current e now k q).1.all_items ≡ some (final_status e))
        × (get_entry k (end_current e now k q).1.current_items ≡ none)
  end_current-left v h = elim (Option-cases (get_entry k q.current_items)) [
    | inl gone ↦ absurd (cc_false (sym (ap is_some gone) ∙ h))
    | inr (item, at_k) ↦ rw (end_current-held item at_k) (ended_status v h, ended-released)
  ]

module _ (now : ℕ) (k : String) (q : InnerQueue) where
  cancelled : InnerQueue
  cancelled = (cancel_item now k q).1

  cancel_item-known :
      {s : QueueItemStatus} → status_at k q.all_items ≡ some s → any (has_id k) q.all_items ≡ true
  cancel_item-known e = any-has_id k q.all_items ∙ rw e refl

  pub cancel_item_status :
      (s : QueueItemStatus)
      → status_at k q.all_items ≡ some s
      → (x : BenchmarkQueueItem) × (x.status ≡ s)
        × (status_at k (cancel_item now k q).1.all_items ≡ some (cancel now x).status)
        × ((cancel_item now k q).0 ≡ true)
        × (get_entry k (cancel_item now k q).1.current_items ≡ none)
  unfolding cancel_item
  cancel_item_status s e =
      let (x, found, same, _) = status_at-find_id k q.all_items e in
      (
        x,
        same,
        rw (cancel_item-known e, cancel_item)
            (status_at-update_first_self k (cancel now) q.all_items x (λ y _. cancel_id now y)
              found),
        rw (cancel_item-known e, cancel_item) refl,
        rw (cancel_item-known e, cancel_item)
            (get_entry-remove_entry k k q.current_items ∙ rw (str_eq_self k) refl),
      )

-- A pending item that is cancelled is marked CANCELLED and leaves the waiting line for good: no
-- place of the line has its id.
pub cancel_pending :
    (now : ℕ) (k : String) (q : InnerQueue)
    → Inv q
    → status_at k q.all_items ≡ some QueueItemStatus.pending
    → ((cancel_item now k q).0 ≡ true)
      × (status_at k (cancel_item now k q).1.all_items ≡ some QueueItemStatus.cancelled)
      × Fresh k (ids (cancel_item now k q).1.inner)
unfolding cancel
cancel_pending now k q v e =
    let (x, pending, after, done, _) = cancel_item_status now k q QueueItemStatus.pending e in
    let status = after ∙ rw pending refl in
    (
      done,
      status,
      rw (cancel_item-Inv now k q v).waiting (
          Fresh-of_status_at k (cancel_item now k q).1.all_items QueueItemStatus.cancelled
            (cancel_item-Inv now k q v).distinct status refl),
    )

-- A running item that is cancelled keeps the state RUNNING, although the call reports true; the
-- worker that runs it can then neither complete nor fail it.
pub cancel_running_stuck :
    (e : Ending) (now later : ℕ) (k : String) (q : InnerQueue)
    → status_at k q.all_items ≡ some QueueItemStatus.running
    → let r = (cancel_item now k q).1 in
      ((cancel_item now k q).0 ≡ true)
      × (status_at k r.all_items ≡ some QueueItemStatus.running)
      × (end_current e later k r ≡ (false, r))
unfolding cancel
cancel_running_stuck e now later k q h =
    let (x, running, after, done, gone) = cancel_item_status now k q QueueItemStatus.running h in
    (
      done,
      after ∙ rw running (ap some running),
      end_current-missing e later k (cancel_item now k q).1 gone,
    )

no_clearable :
    (xs : Items) → All IsPending xs → length (retain (λ item. is_clearable item.status) xs) ≡ 0
no_clearable [] h = refl
no_clearable (x ∷ xs) h = ground (arith, no_clearable xs h.1)

-- The entries of a state.
abbrev pub count_of : (QueueItemStatus → Bool) → Items → ℕ
count_of is xs = length (retain (λ item. is item.status) xs)

none_left :
    (is : QueueItemStatus → Bool)
    → ((s : QueueItemStatus) → is s ≡ true → is_clearable s ≡ true)
    → (xs : Items) → count_of is (retain (λ item. not (is_clearable item.status)) xs) ≡ 0
none_left is cleared [] = refl
none_left is cleared (x ∷ xs) = ground (arith, cleared x.status, none_left is cleared xs)

all_left :
    (is : QueueItemStatus → Bool)
    → ((s : QueueItemStatus) → is s ≡ true → is_clearable s ≡ false)
    → (xs : Items)
    → retain (λ item. is item.status) (retain (λ item. not (is_clearable item.status)) xs)
      ≡ retain (λ item. is item.status) xs
all_left is kept [] = refl
all_left is kept (x ∷ xs) = ground (arith, kept x.status, all_left is kept xs)

abbrev pub is_completed : QueueItemStatus → Bool
is_completed QueueItemStatus.completed = true
is_completed _ = false

abbrev pub was_cancelled : QueueItemStatus → Bool
was_cancelled QueueItemStatus.cancelled = true
was_cancelled _ = false

-- PENDING, RUNNING and FAILED.
abbrev pub is_open : QueueItemStatus → Bool
is_open QueueItemStatus.completed = false
is_open QueueItemStatus.cancelled = false
is_open _ = true

-- In every consistent state `clear_terminal_items` reports 0 removed items and leaves the waiting line
-- as it is, while no completed and no cancelled item stays in the list of all items; all the others
-- stay there, in their order.
pub clear_terminal_reports_none :
    (q : InnerQueue)
    → Inv q
    → ((clear_terminal_items q).0 ≡ 0)
      × ((clear_terminal_items q).1.inner ≡ q.inner)
      × (count_of is_completed (clear_terminal_items q).1.all_items ≡ 0)
      × (count_of was_cancelled (clear_terminal_items q).1.all_items ≡ 0)
      × (retain (λ item. is_open item.status) (clear_terminal_items q).1.all_items
          ≡ retain (λ item. is_open item.status) q.all_items)
unfolding clear_terminal_items
clear_terminal_reports_none q v = (
  no_clearable q.inner v.unstarted,
  retain-unclearable q.inner v.unstarted,
  none_left is_completed (λ s h. ground (arith, h)) q.all_items,
  none_left was_cancelled (λ s h. ground (arith, h)) q.all_items,
  all_left is_open (λ s h. ground (arith, h)) q.all_items,
)
