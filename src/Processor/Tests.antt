-- ===== src/Processor/Tests.antt =====
-- Runs of the item processing of benchmark-web/src/services/queue_processor.rs, and its theorems at
-- concrete items.
use llm_benchmark.Common.{
  ℕ, ◌*◌, true, false, ◌≡◌, refl, [], ◌∷◌, Option, none, some, arith, if◌then◌else◌, ltb,
}
use llm_benchmark.Status.{RunStatus, QueueItemStatus}
use llm_benchmark.Item.{BenchmarkQueueItem, new_item}
use llm_benchmark.Queue.{InnerQueue, empty, add_all, poll_next, set_session_id, session_id_for}
use llm_benchmark.Queue.Entries.{get_entry, insert_entry, update_first, find_id}
use llm_benchmark.Queue.Invariant.{empty-Inv}
use llm_benchmark.Queue.Steps.{Reach, here, next, adds, polls, links, Reach-Inv}
use llm_benchmark.Session.{new_session}
use llm_benchmark.Session.Heaps.{new_token}
use llm_benchmark.Manager.{
  SessionManager, new_manager, create_session, get_session, get_cancellation_token,
}
use llm_benchmark.Manager.Tokens.{
  HasTokens, new_manager-HasTokens, create_session-HasTokens, Cancelled,
}
use llm_benchmark.Processor.{
  Verdict, settle, pause, request_of, begin_item, process_queue_item, cancel_queue_item, clear_all,
}
use llm_benchmark.Processor.Waiting.{IsPaced, enough_looks}
use llm_benchmark.Processor.Clearing.{Shut, clear_all_cancels}
use llm_benchmark.Processor.Ending.{Left, Holds, Ended, process_queue_item_ends}
use llm_benchmark.Processor.Cancelling.{cancel_queue_item_linked}

abbrev job : BenchmarkQueueItem
unfolding new_item
job = new_item "a" 5 "pi" "qwen" none "java" "two-fer" false

abbrev polled : InnerQueue
polled = (poll_next (add_all (job ∷ []) empty)).1

polled-Reach : Reach empty polled
unfolding new_item add_all empty
polled-Reach = next (next here (adds (job ∷ []) (refl, tt, tt))) polls

-- The session runs at the first two looks and is COMPLETED from the third on.
abbrev seen : ℕ → Option RunStatus
seen i = if ltb i 2 then some RunStatus.running else some RunStatus.completed

abbrev elapsed : ℕ → ℕ
elapsed i = pause * i

elapsed-IsPaced : IsPaced elapsed
unfolding IsPaced
elapsed-IsPaced i = omega arith

settle_third : settle seen elapsed 5 0 ≡ some Verdict.completes
unfolding settle
settle_third = refl

settle_missing : settle (λ i. none) elapsed 30 0 ≡ some Verdict.fails
unfolding settle
settle_missing = refl

abbrev linked : InnerQueue
linked = set_session_id "a" "s" polled

linked-Holds : Holds "a" linked
unfolding new_item add_all empty poll_next set_session_id get_entry insert_entry
linked-Holds = record {
  consistent = Reach-Inv empty-Inv (next polled-Reach (links "a" "s"));
  held = refl;
}

process_queue_item_ends_example :
    (r : InnerQueue) × (process_queue_item
        (λ s m. (false, m))
        (λ q. q)
        seen
        elapsed
        enough_looks
        "s"
        7
        job
        polled
        new_manager
      ≡ some (r, (begin_item "s" job polled new_manager).2))
    × Ended seen elapsed enough_looks false "a" r
unfolding begin_item new_item create_session new_session
process_queue_item_ends_example =
    process_queue_item_ends (λ s m. (false, m)) (λ q. q) seen elapsed enough_looks "s" 7 job polled
      new_manager elapsed-IsPaced (omega arith) linked-Holds

abbrev registry : SessionManager
registry = (create_session "s" (request_of job) new_manager).1

registry-HasTokens : HasTokens registry
registry-HasTokens = create_session-HasTokens "s" (request_of job) new_manager new_manager-HasTokens

cancel_queue_item_linked_example :
    ((cancel_queue_item 7 "a" linked registry).0 ≡ true)
    × Cancelled "s" 0 registry (cancel_queue_item 7 "a" linked registry).2
    × Left "a" QueueItemStatus.running (cancel_queue_item 7 "a" linked registry).1
unfolding new_item add_all empty poll_next set_session_id create_session request_of new_manager
    update_first session_id_for find_id get_session get_entry insert_entry new_session
    get_cancellation_token new_token
cancel_queue_item_linked_example =
    cancel_queue_item_linked 7 "a" linked registry refl "s"
      (create_session "s" (request_of job) new_manager).0 0 registry-HasTokens refl refl refl refl

clear_all_cancels_example :
    ((clear_all 7 linked registry).0 ≡ 1)
    × ((clear_all 7 linked registry).1 ≡ empty)
    × Shut "s" 0 (clear_all 7 linked registry).2
unfolding new_item add_all empty poll_next set_session_id create_session request_of new_manager
    update_first get_session get_entry insert_entry new_session get_cancellation_token new_token
clear_all_cancels_example =
    clear_all_cancels 7 linked registry (create_session "s" (request_of job) new_manager).0 0
      registry-HasTokens refl refl refl
