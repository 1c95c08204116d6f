-- ===== src/Processor.antt =====
-- One queue item from its start to its end: `process_queue_item`, `cancel_queue_item` and `clear_all`
-- of benchmark-web/src/services/queue_processor.rs. Times are nanoseconds. The executor, what other
-- callers do to the queue in the meantime, and what the waiting loop sees are arguments.
pub mod Waiting
pub mod Ending
pub mod Cancelling
pub mod Clearing
mod Tests
use llm_benchmark.Common.{
  ℕ, zero, suc, ◌+◌, ◌*◌, Bool, true, false, String, List, [], ◌∷◌, Option, none, some,
  if◌then◌else◌, ltb,
}
use llm_benchmark.Status.{RunStatus}
use llm_benchmark.Item.{BenchmarkQueueItem}
use llm_benchmark.Session.{BenchmarkSession, Request, with_category_value, with_aoc_user}
use llm_benchmark.Queue.{
  InnerQueue, set_session_id, session_id_for, cancel_item, complete_current, fail_current,
  clear_all as clear_all_items,
}
use llm_benchmark.Manager.{SessionManager, create_session, cancel_session, get_active_sessions}

-- What the waiting loop ends with.
pub data Verdict : Type 0 where
  completes cancels fails : Verdict

-- 3900 s, 10 s and the 500 ms between two looks.
abbrev pub max_wait : ℕ
max_wait = 3900 * 1000000000

abbrev pub grace : ℕ
grace = 10 * 1000000000

abbrev pub pause : ℕ
pause = 500 * 1000000

-- One look at the session: its status, if the registry has it, and the time since the start.
unfoldable pub look : Option RunStatus → ℕ → Option Verdict
look none elapsed = if ltb grace elapsed then some Verdict.fails else none
look (some RunStatus.completed) elapsed = some Verdict.completes
look (some RunStatus.cancelled) elapsed = some Verdict.cancels
look (some RunStatus.failed) elapsed = some Verdict.fails
look (some _) elapsed = if ltb max_wait elapsed then some Verdict.fails else none

-- The loop from its `i`th look on: `seen` and `elapsed` are what the looks read.
unfoldable pub settle : (ℕ → Option RunStatus) → (ℕ → ℕ) → (fuel i : ℕ) → Option Verdict
unfolding look
settle seen elapsed zero i = none
settle seen elapsed (suc fuel) i = elim (look (seen i) (elapsed i)) [
  | some verdict ↦ some verdict
  | none ↦ settle seen elapsed fuel (suc i)
]

-- The arguments of `create_session`: one hour for the exercise.
unfoldable pub request_of : BenchmarkQueueItem → Request
request_of item = record {
  agent_name = item.agent_name;
  languages = item.language ∷ [];
  model = item.model;
  thinking_level = item.thinking_level;
  exercise_name = some item.exercise;
  retry = item.retry;
  timeout_ms = 3600000;
}

-- Up to the call of the executor: the session that it gets, the queue and the registry.
unfoldable pub begin_item :
    String
    → BenchmarkQueueItem
    → InnerQueue
    → SessionManager
    → BenchmarkSession × InnerQueue × SessionManager
unfolding request_of with_category_value with_aoc_user
begin_item uuid item q m =
    let (created, m') = create_session uuid (request_of item) m in
    let session = with_aoc_user item.aoc_user (with_category_value item.category created) in
    (session, set_session_id item.id session.id q, m')

unfoldable pub conclude : Verdict → ℕ → String → InnerQueue → InnerQueue
conclude Verdict.completes now item_id q = (complete_current now item_id q).1
conclude Verdict.cancels now item_id q = (cancel_item now item_id q).1
conclude Verdict.fails now item_id q = (fail_current now item_id q).1

conclude_settled :
    ℕ → String → InnerQueue → SessionManager → Option Verdict → Option (InnerQueue × SessionManager)
unfolding conclude
conclude_settled now item_id q m none = none
conclude_settled now item_id q m (some verdict) = some (conclude verdict now item_id q, m)

-- `process_queue_item`: `execute` says whether it ended in an error and what it made of the registry,
-- `others` is what other callers did to the queue by then; none is returned if the fuel runs out.
unfoldable pub process_queue_item :
    (execute : BenchmarkSession → SessionManager → Bool × SessionManager)
    (others : InnerQueue → InnerQueue) (seen : ℕ → Option RunStatus) (elapsed : ℕ → ℕ) (fuel : ℕ)
    (uuid : String) (now : ℕ)
    → BenchmarkQueueItem
    → InnerQueue
    → SessionManager
    → Option (InnerQueue × SessionManager)
unfolding conclude_settled begin_item
process_queue_item execute others seen elapsed fuel uuid now item q m =
    let (session, q', m') = begin_item uuid item q m in
    let (failed, m'') = execute session m' in
    if failed
    then some ((fail_current now item.id (others q')).1, m'')
    else conclude_settled now item.id (others q') m'' (settle seen elapsed fuel 0)

cancel_linked : ℕ → Option String → SessionManager → SessionManager
cancel_linked now none m = m
cancel_linked now (some sid) m = (cancel_session now sid m).1

-- `cancel_queue_item`: the session is read before the item is cancelled.
unfoldable pub cancel_queue_item :
    ℕ → String → InnerQueue → SessionManager → Bool × InnerQueue × SessionManager
unfolding cancel_linked
cancel_queue_item now item_id q m =
    let sid = session_id_for item_id q in
    let (cancelled, q') = cancel_item now item_id q in
    (cancelled, q', if cancelled then cancel_linked now sid m else m)

cancel_each : ℕ → List BenchmarkSession → SessionManager → SessionManager
cancel_each now [] m = m
cancel_each now (session ∷ rest) m = cancel_each now rest (cancel_session now session.id m).1

-- `clear_all` of the processor.
unfoldable pub clear_all : ℕ → InnerQueue → SessionManager → ℕ × InnerQueue × SessionManager
unfolding cancel_each
clear_all now q m =
    let m' = cancel_each now (get_active_sessions m) m in
    let (removed, q') = clear_all_items q in (removed, q', m')
