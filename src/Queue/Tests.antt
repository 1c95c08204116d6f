-- ===== src/Queue/Tests.antt =====
-- Runs of the queue of benchmark-web/src/models/queue.rs, and its theorems at concrete queues.
use llm_benchmark.Common.{
  ◌+◌, false, String, ◌≡◌, refl, List, [], ◌∷◌, ◌++◌, none, some, length, retain,
}
use llm_benchmark.Status.{QueueItemStatus}
use llm_benchmark.Item.{BenchmarkQueueItem, new_item, retry_returned}
use llm_benchmark.Queue.Entries.{update_first, get_entry, insert_entry}
use llm_benchmark.Queue.Ids.{ids, status_at}
use llm_benchmark.Queue.Invariant.{Inv, empty-Inv}
use llm_benchmark.Queue.Polling.{Polled, poll_next_oldest, polled_ids, polled_ids-pending_ids}
use llm_benchmark.Queue.Steps.{Reach, here, next, adds, polls, completes, fails, Reach-Inv}
use llm_benchmark.Queue.Outcomes.{
  Ending, end_current, clear_terminal_reports_none, count_of, is_completed, was_cancelled, is_open,
}
use llm_benchmark.Queue.Endings.{ended_once}
use llm_benchmark.Queue.Retrying.{retry_item_queues_failed}
use llm_benchmark.Queue.Stuck.{Stuck, cancelled_running_for_ever}
use llm_benchmark.Queue.{
  InnerQueue, empty, add_all, poll_next, complete_current, fail_current, cancel_item,
  clear_terminal_items, retry_item,
}

abbrev job : String → BenchmarkQueueItem
unfolding new_item
job uuid = new_item uuid 5 "pi" "qwen" none "java" "two-fer" false

abbrev jobs : List BenchmarkQueueItem
jobs = job "a" ∷ job "b" ∷ []

abbrev two_waiting : InnerQueue
two_waiting = add_all jobs empty

two_waiting-Reach : Reach empty two_waiting
unfolding new_item add_all empty
two_waiting-Reach = next here (adds jobs (refl, tt, (refl, (refl, tt), tt)))

two_waiting-Inv : Inv two_waiting
two_waiting-Inv = Reach-Inv empty-Inv two_waiting-Reach

abbrev one_running : InnerQueue
one_running = (poll_next two_waiting).1

one_running-Inv : Inv one_running
one_running-Inv = Reach-Inv empty-Inv (next two_waiting-Reach polls)

Reach-Inv_example : Inv one_running
Reach-Inv_example = Reach-Inv two_waiting-Inv (next here polls)

poll_next_oldest_example : Polled "a" ("b" ∷ []) two_waiting
unfolding new_item add_all empty
poll_next_oldest_example = poll_next_oldest "a" ("b" ∷ []) two_waiting two_waiting-Inv refl

polled_ids-pending_ids_example : polled_ids 2 two_waiting ≡ "a" ∷ "b" ∷ []
unfolding new_item add_all empty
polled_ids-pending_ids_example =
    polled_ids-pending_ids ("a" ∷ "b" ∷ []) two_waiting two_waiting-Inv refl

-- The item is completed, and the next one polled.
abbrev other_polled : InnerQueue
other_polled = (poll_next (end_current Ending.success 9 "a" one_running).1).1

ended_once_example :
    (status_at "a" (end_current Ending.success 9 "a" one_running).1.all_items
      ≡ some QueueItemStatus.completed)
    × (end_current Ending.failure 10 "a" other_polled ≡ (false, other_polled))
unfolding new_item add_all empty poll_next complete_current insert_entry get_entry update_first
ended_once_example =
    ended_once Ending.success Ending.failure 9 10 "a" one_running {t = other_polled}
      (next here polls) (tt, tt) one_running-Inv refl

cancelled_running_for_ever_example :
    Stuck "a" (complete_current 10 "a" (cancel_item 9 "a" one_running).1).1
unfolding new_item add_all empty poll_next insert_entry update_first
cancelled_running_for_ever_example =
    cancelled_running_for_ever 9 "a" one_running (next here (completes 10 "a")) (tt, tt)
      one_running-Inv refl

abbrev one_failed : InnerQueue
one_failed = (fail_current 9 "a" one_running).1

one_failed-Inv : Inv one_failed
one_failed-Inv = Reach-Inv empty-Inv (next (next two_waiting-Reach polls) (fails 9 "a"))

abbrev one_completed : InnerQueue
one_completed = (complete_current 9 "a" one_running).1

clear_terminal_reports_none_example :
    ((clear_terminal_items one_completed).0 ≡ 0)
    × ((clear_terminal_items one_completed).1.inner ≡ one_completed.inner)
    × (count_of is_completed (clear_terminal_items one_completed).1.all_items ≡ 0)
    × (count_of was_cancelled (clear_terminal_items one_completed).1.all_items ≡ 0)
    × (retain (λ item. is_open item.status) (clear_terminal_items one_completed).1.all_items
        ≡ retain (λ item. is_open item.status) one_completed.all_items)
clear_terminal_reports_none_example =
    clear_terminal_reports_none one_completed
      (Reach-Inv empty-Inv (next (next two_waiting-Reach polls) (completes 9 "a")))

-- One item goes, and none is reported.
clear_terminal_takes_one :
    (clear_terminal_items one_completed).0 + length (clear_terminal_items one_completed).1.all_items
    ≡ 1
unfolding new_item add_all empty poll_next complete_current insert_entry get_entry update_first
    clear_terminal_items
clear_terminal_takes_one = refl

abbrev failed_job : BenchmarkQueueItem
failed_job = record (job "a") { status = QueueItemStatus.failed; finished_at = some 9 }

retry_item_queues_failed_example :
    let r = (retry_item "a" one_failed).1 in
    (failed_job.status ≡ QueueItemStatus.failed)
    × (failed_job.id ≡ "a")
    × (r.inner ≡ one_failed.inner ++ failed_job ∷ [])
    × (status_at "a" r.all_items ≡ some QueueItemStatus.pending)
    × (ids r.all_items ≡ ids one_failed.all_items ++ "a" ∷ [])
unfolding new_item add_all empty poll_next fail_current insert_entry get_entry update_first
    retry_item retry_returned
retry_item_queues_failed_example =
    retry_item_queues_failed "a" one_failed failed_job one_failed-Inv refl
