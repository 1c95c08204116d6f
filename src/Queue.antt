-- ===== src/Queue.antt =====
-- The benchmark queue: InnerQueue and BenchmarkQueue of benchmark-web/src/models/queue.rs. One
-- mutex guards the whole state, so each method is one function on it. The hash map of running
-- items is an association list. What the notifier does is in Worker.antt.
pub mod Entries
pub mod Ids
pub mod Updates
pub mod Invariant
pub mod Polling
pub mod Clearing
pub mod Steps
pub mod Outcomes
pub mod Endings
pub mod Retrying
pub mod Stuck
mod Tests
use llm_benchmark.Common.{
  ℕ, Bool, true, false, String, List, [], ◌∷◌, ◌++◌, Option, none, some, if◌then◌else◌, not, length,
  retain, any, is_some,
}
use llm_benchmark.Status.{QueueItemStatus, is_pending, is_clearable, is_failed}
use llm_benchmark.Item.{BenchmarkQueueItem, cancel, retry_left, retry_returned}
use Entries.{update_first, has_id, find_id, insert_entry, remove_entry, get_entry}

pub record InnerQueue : Type 0 where
  pub inner : List BenchmarkQueueItem
  pub all_items : List BenchmarkQueueItem
  pub current_items : List (String × BenchmarkQueueItem)

-- `new`.
unfoldable pub empty : InnerQueue
empty = record { inner = []; all_items = []; current_items = [] }

-- `add`.
unfoldable pub add : BenchmarkQueueItem → InnerQueue → InnerQueue
add item q = record q { inner = q.inner ++ item ∷ []; all_items = q.all_items ++ item ∷ [] }

-- `add_all`: the loop over the items under one lock.
unfoldable pub add_all : List BenchmarkQueueItem → InnerQueue → InnerQueue
unfolding add
add_all [] q = q
add_all (item ∷ items) q = add_all items (add item q)

unfoldable pub set_running : BenchmarkQueueItem → BenchmarkQueueItem
set_running item = record item { status = QueueItemStatus.running }

poll_from : List BenchmarkQueueItem → InnerQueue → Option BenchmarkQueueItem × InnerQueue
unfolding set_running
poll_from [] q = (none, q)
poll_from (front ∷ rest) q =
    let item = set_running front in
    (
      some item,
      record {
        inner = rest;
        all_items = update_first item.id (λ _. item) q.all_items;
        current_items = insert_entry item.id item q.current_items;
      },
    )

-- `poll_next`: pop the front, mark it RUNNING, replace the first entry with its id by it, and keep
-- it among the running items.
unfoldable pub poll_next : InnerQueue → Option BenchmarkQueueItem × InnerQueue
unfolding poll_from
poll_next q = poll_from q.inner q

-- The loop of `complete_current` and of `fail_current` on the first entry with the id.
finish : QueueItemStatus → ℕ → BenchmarkQueueItem → BenchmarkQueueItem
finish status now item = record item { status = status; finished_at = some now }

finish_current : QueueItemStatus → ℕ → String → InnerQueue → Bool × InnerQueue
unfolding finish
finish_current status now item_id q =
    if is_some (get_entry item_id q.current_items)
    then (
      true,
      record q {
        all_items = update_first item_id (finish status now) q.all_items;
        current_items = remove_entry item_id q.current_items;
      },
    )
    else (false, q)

-- `complete_current`.
unfoldable pub complete_current : ℕ → String → InnerQueue → Bool × InnerQueue
unfolding finish_current
complete_current = finish_current QueueItemStatus.completed

-- `fail_current`.
unfoldable pub fail_current : ℕ → String → InnerQueue → Bool × InnerQueue
unfolding finish_current
fail_current = finish_current QueueItemStatus.failed

-- `cancel_item`: nothing happens to an id that no entry has; an entry that is not pending keeps its
-- status and still leaves the running items.
unfoldable pub cancel_item : ℕ → String → InnerQueue → Bool × InnerQueue
cancel_item now item_id q =
    if any (has_id item_id) q.all_items
    then (
      true,
      record {
        inner =
            if any (has_id item_id) q.inner
            then retain (λ item. not (has_id item_id item)) q.inner
            else q.inner;
        all_items = update_first item_id (cancel now) q.all_items;
        current_items = remove_entry item_id q.current_items;
      },
    )
    else (false, q)

-- `clear_pending`.
unfoldable pub clear_pending : InnerQueue → InnerQueue
clear_pending q = record q {
  inner = retain (λ item. not (is_pending item.status)) q.inner;
  all_items = retain (λ item. not (is_pending item.status)) q.all_items;
}

-- `clear_terminal_items`: the count is that of the entries of `inner` that go.
unfoldable pub clear_terminal_items : InnerQueue → ℕ × InnerQueue
clear_terminal_items q = (
  length (retain (λ item. is_clearable item.status) q.inner),
  record q {
    inner = retain (λ item. not (is_clearable item.status)) q.inner;
    all_items = retain (λ item. not (is_clearable item.status)) q.all_items;
  },
)

-- `clear_all`.
unfoldable pub clear_all : InnerQueue → ℕ × InnerQueue
unfolding empty
clear_all q = (length q.all_items, empty)

-- The search of `retry_item`: the first entry with the id and the status FAILED.
abbrev pub is_retryable : String → BenchmarkQueueItem → Bool
is_retryable item_id item = if has_id item_id item then is_failed item.status else false

retry_scan : String → List BenchmarkQueueItem → Option BenchmarkQueueItem × List BenchmarkQueueItem
retry_scan item_id [] = (none, [])
retry_scan item_id (item ∷ items) =
    let (found, rest) = retry_scan item_id items in
    if is_retryable item_id item
    then (some (retry_returned item), retry_left item ∷ items)
    else (found, item ∷ rest)

retry_add : Option BenchmarkQueueItem → InnerQueue → Option BenchmarkQueueItem × InnerQueue
unfolding add
retry_add none q = (none, q)
retry_add (some item) q = (some item, add item q)

-- `retry_item`: reset the entry in place, then `add` the clone that `retry` returned.
unfoldable pub retry_item : String → InnerQueue → Option BenchmarkQueueItem × InnerQueue
unfolding retry_scan retry_add
retry_item item_id q =
    let (found, entries) = retry_scan item_id q.all_items in
    retry_add found (record q { all_items = entries })

link_session : String → BenchmarkQueueItem → BenchmarkQueueItem
link_session sid item = record item { session_id = some sid }

-- `set_session_id`.
unfoldable pub set_session_id : String → String → InnerQueue → InnerQueue
unfolding link_session
set_session_id item_id sid q = record q {
  all_items = update_first item_id (link_session sid) q.all_items;
}

-- `session_id_for`.
unfoldable pub session_id_for : String → InnerQueue → Option String
session_id_for item_id q = elim (find_id item_id q.all_items) [
  | none ↦ none
  | some item ↦ item.session_id
]

-- `get_all_items` and `get_pending_items`.
unfoldable pub get_all_items : InnerQueue → List BenchmarkQueueItem
get_all_items q = q.all_items

unfoldable pub get_pending_items : InnerQueue → List BenchmarkQueueItem
get_pending_items q = retain (λ item. is_pending item.status) q.all_items
