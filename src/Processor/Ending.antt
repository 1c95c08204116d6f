-- ===== src/Processor/Ending.antt =====
-- How `process_queue_item` of benchmark-web/src/services/queue_processor.rs leaves its item.
use llm_benchmark.Common.{
  ℕ, ◌≤◌, Bool, true, false, String, ◌≡◌, refl, ap, ◌∙◌, Option, none, some, is_some, if◌then◌else◌,
}
use llm_benchmark.Status.{RunStatus, QueueItemStatus}
use llm_benchmark.Item.{BenchmarkQueueItem, cancel}
use llm_benchmark.Queue.{InnerQueue, fail_current, cancel_item}
use llm_benchmark.Queue.Entries.{get_entry}
use llm_benchmark.Queue.Ids.{status_at}
use llm_benchmark.Queue.Invariant.{Inv}
use llm_benchmark.Queue.Outcomes.{
  cancel_item_status, Ending, end_current, end_current-left, final_status,
}
use llm_benchmark.Session.{BenchmarkSession}
use llm_benchmark.Manager.{SessionManager}
use llm_benchmark.Processor.{
  Verdict, settle, begin_item, conclude, conclude_settled, process_queue_item,
}
use llm_benchmark.Processor.Waiting.{IsPaced, Settled, enough_looks, settle_ends}

-- What the list of all items shows in the end: a cancelled session leaves the item RUNNING.
abbrev pub status_after : Verdict → QueueItemStatus
status_after Verdict.completes = QueueItemStatus.completed
status_after Verdict.cancels = QueueItemStatus.running
status_after Verdict.fails = QueueItemStatus.failed

-- The item shows the state, and no worker holds it.
pub record Left (k : String) (status : QueueItemStatus) (q : InnerQueue) : Type 0 where
  pub shown : status_at k q.all_items ≡ some status
  pub unheld : get_entry k q.current_items ≡ none

module _ (now : ℕ) (k : String) (q : InnerQueue) (v : Inv q)
    (held : is_some (get_entry k q.current_items) ≡ true) where
  end-Left : (e : Ending) → Left k (final_status e) (end_current e now k q).1
  end-Left e =
      let (shown, unheld) = end_current-left e now k q v held in
      record { shown = shown; unheld = unheld }

  cancel-Left : Left k QueueItemStatus.running (cancel_item now k q).1
  unfolding cancel
  cancel-Left =
      let (x, running, after, _, gone) =
        cancel_item_status now k q QueueItemStatus.running (v.held k held) in
      record { shown = after ∙ rw running (ap some running); unheld = gone }

  conclude-Left : (verdict : Verdict) → Left k (status_after verdict) (conclude verdict now k q)
  unfolding conclude
  conclude-Left Verdict.completes = end-Left Ending.success
  conclude-Left Verdict.cancels = cancel-Left
  conclude-Left Verdict.fails = end-Left Ending.failure

-- What other callers do to the queue in the meantime keeps it consistent and lets the worker hold the
-- item.
pub record Holds (k : String) (q : InnerQueue) : Type 0 where
  pub consistent : Inv q
  pub held : is_some (get_entry k q.current_items) ≡ true

-- How the call ended: with an error of the executor, or with the verdict of the waiting loop.
unfoldable pub Ended :
    (seen : ℕ → Option RunStatus) (elapsed : ℕ → ℕ) (fuel : ℕ) → Bool → String → InnerQueue → Type 0
Ended seen elapsed fuel true k r = Left k QueueItemStatus.failed r
Ended seen elapsed fuel false k r =
    (v : Verdict) × Settled seen elapsed fuel 0 v × Left k (status_after v) r

settled-Ended :
    (seen : ℕ → Option RunStatus) (elapsed : ℕ → ℕ) (fuel now : ℕ) (k : String) (q : InnerQueue)
    (m : SessionManager)
    → IsPaced elapsed
    → enough_looks ≤ fuel
    → Holds k q
    → (r : InnerQueue) × (conclude_settled now k q m (settle seen elapsed fuel 0) ≡ some (r, m))
      × Ended seen elapsed fuel false k r
unfolding Ended conclude_settled
settled-Ended seen elapsed fuel now k q m paced enough h =
    let (v, s) = settle_ends seen elapsed fuel paced enough in
    (
      conclude v now k q,
      rw (s.ended, conclude_settled) refl,
      (v, s, conclude-Left now k q h.consistent h.held v),
    )

finish_item :
    (seen : ℕ → Option RunStatus) (elapsed : ℕ → ℕ) (fuel now : ℕ) (k : String) (q : InnerQueue)
    (m : SessionManager) (failed : Bool)
    → IsPaced elapsed
    → enough_looks ≤ fuel
    → Holds k q
    → (r : InnerQueue) × ((if failed
          then some ((fail_current now k q).1, m)
          else conclude_settled now k q m (settle seen elapsed fuel 0))
        ≡ some (r, m))
      × Ended seen elapsed fuel failed k r
unfolding Ended
finish_item seen elapsed fuel now k q m true paced enough h =
    ((fail_current now k q).1, refl, end-Left now k q h.consistent h.held Ending.failure)
finish_item seen elapsed fuel now k q m false paced enough h =
    settled-Ended seen elapsed fuel now k q m paced enough h

-- Processing an item returns within 7802 looks at its session and releases the item, as long as the
-- worker holds it until then: it is FAILED on an error of the executor, else COMPLETED or FAILED by
-- the verdict of the waiting loop; only after a cancelled session it still says RUNNING.
pub process_queue_item_ends :
    (execute : BenchmarkSession → SessionManager → Bool × SessionManager)
    (others : InnerQueue → InnerQueue) (seen : ℕ → Option RunStatus) (elapsed : ℕ → ℕ) (fuel : ℕ)
    (uuid : String) (now : ℕ) (item : BenchmarkQueueItem) (q : InnerQueue) (m : SessionManager)
    → IsPaced elapsed
    → enough_looks ≤ fuel
    → Holds item.id (others (begin_item uuid item q m).1)
    → let (failed, m') = execute (begin_item uuid item q m).0 (begin_item uuid item q m).2 in
      (r : InnerQueue) × (process_queue_item execute others seen elapsed fuel uuid now item q m
        ≡ some (r, m'))
      × Ended seen elapsed fuel failed item.id r
unfolding process_queue_item
process_queue_item_ends execute others seen elapsed fuel uuid now item q m paced enough h =
    let (session, q', m') = begin_item uuid item q m in
    finish_item seen elapsed fuel now item.id (others q') (execute session m').1
      (execute session m').0 paced enough h
