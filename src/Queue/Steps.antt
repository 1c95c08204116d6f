-- ===== src/Queue/Steps.antt =====
-- Histories of the queue of benchmark-web/src/models/queue.rs: the methods as steps, taken in any
-- order by any callers, since one mutex makes each of them atomic. `retry_item` is left to
-- Retrying.antt. A new item has the state and the unused id that its constructor gives it.
use llm_benchmark.Common.{ℕ, String, List, [], ◌∷◌}
use llm_benchmark.Item.{BenchmarkQueueItem}
use llm_benchmark.Queue.Ids.{ids, Fresh}
use llm_benchmark.Queue.{
  InnerQueue, add, add_all, poll_next, complete_current, fail_current, cancel_item, clear_pending,
  clear_terminal_items, clear_all, set_session_id,
}
use llm_benchmark.Queue.Invariant.{
  IsPending, Inv, empty-Inv, add-Inv, complete_current-Inv, fail_current-Inv,
}
use llm_benchmark.Queue.Polling.{poll_next-Inv}
use llm_benchmark.Queue.Clearing.{
  cancel_item-Inv, set_session_id-Inv, clear_pending-Inv, clear_terminal_items-Inv,
}

-- Items that may be added: each is pending, and no id is in use.
abbrev pub Addable : List BenchmarkQueueItem → InnerQueue → Type 0
Addable [] q = Unit {0}
Addable (x ∷ xs) q = IsPending x × Fresh x.id (ids q.all_items) × Addable xs (add x q)

pub data Step (q : InnerQueue) : InnerQueue → Type 0 where
  adds : (items : List BenchmarkQueueItem) → Addable items q → Step q (add_all items q)
  polls : Step q (poll_next q).1
  completes : (now : ℕ) (k : String) → Step q (complete_current now k q).1
  fails : (now : ℕ) (k : String) → Step q (fail_current now k q).1
  cancels : (now : ℕ) (k : String) → Step q (cancel_item now k q).1
  links : (k sid : String) → Step q (set_session_id k sid q)
  clears_pending : Step q (clear_pending q)
  clears_terminal : Step q (clear_terminal_items q).1
  clears_all : Step q (clear_all q).1

pub data Reach (q : InnerQueue) : InnerQueue → Type 0 where
  here : Reach q q
  next : {r s : InnerQueue} → Reach q r → Step r s → Reach q s

add_all-Inv :
    (items : List BenchmarkQueueItem) (q : InnerQueue)
    → Inv q
    → Addable items q
    → Inv (add_all items q)
unfolding add_all
add_all-Inv [] q v a = v
add_all-Inv (x ∷ xs) q v a = add_all-Inv xs (add x q) (add-Inv x q v a.0 a.1) a.2

clear_all-Inv : (q : InnerQueue) → Inv (clear_all q).1
unfolding clear_all
clear_all-Inv q = empty-Inv

Step-Inv : {q r : InnerQueue} → Step q r → Inv q → Inv r
Step-Inv (adds items a) v = add_all-Inv items _ v a
Step-Inv polls v = poll_next-Inv _ v
Step-Inv (completes now k) v = complete_current-Inv now k _ v
Step-Inv (fails now k) v = fail_current-Inv now k _ v
Step-Inv (cancels now k) v = cancel_item-Inv now k _ v
Step-Inv (links k sid) v = set_session_id-Inv k sid _ v
Step-Inv clears_pending v = clear_pending-Inv _ v
Step-Inv clears_terminal v = clear_terminal_items-Inv _ v
Step-Inv clears_all v = clear_all-Inv _

-- Whatever calls come, in whatever order, a queue that starts in a consistent state stays in one:
-- ids are unique, the waiting line is the pending entries in order, and running items are RUNNING.
pub Reach-Inv : {q r : InnerQueue} → Inv q → Reach q r → Inv r
Reach-Inv v here = v
Reach-Inv v (next h s) = Step-Inv s (Reach-Inv v h)
