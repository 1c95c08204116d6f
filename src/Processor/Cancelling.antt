-- ===== src/Processor/Cancelling.antt =====
-- `cancel_queue_item` of benchmark-web/src/services/queue_processor.rs: the cancellation of an item
-- with its session, and one that comes before the worker has linked the session.
use llm_benchmark.Common.{ℕ, true, String, ◌≡◌, refl, ap, ◌∙◌, none, some}
use llm_benchmark.Status.{QueueItemStatus, is_active}
use llm_benchmark.Item.{cancel}
use llm_benchmark.Queue.{InnerQueue, session_id_for, cancel_item}
use llm_benchmark.Queue.Ids.{status_at}
use llm_benchmark.Queue.Outcomes.{cancel_item_status}
use llm_benchmark.Session.{BenchmarkSession}
use llm_benchmark.Manager.{SessionManager, get_session, get_cancellation_token}
use llm_benchmark.Manager.Tokens.{HasTokens, Cancelled, cancel_session_fires}
use llm_benchmark.Processor.{cancel_queue_item, cancel_linked}
use llm_benchmark.Processor.Ending.{Left}

module _ (now : ℕ) (k : String) (q : InnerQueue) (m : SessionManager)
    (running : status_at k q.all_items ≡ some QueueItemStatus.running) where
  cancel_item-Left :
      ((cancel_item now k q).0 ≡ true) × Left k QueueItemStatus.running (cancel_item now k q).1
  unfolding cancel
  cancel_item-Left =
      let (x, same, after, done, gone) =
        cancel_item_status now k q QueueItemStatus.running running in
      (done, record { shown = after ∙ rw same (ap some same); unheld = gone })

  -- Cancelling a running item whose session is linked and active reports true, cancels this session
  -- and fires its token, and touches no other session and no other token; the item itself stays
  -- RUNNING in the list of all items, with no worker that holds it.
  pub cancel_queue_item_linked :
      (sid : String) (s : BenchmarkSession) (token : ℕ)
      → HasTokens m
      → session_id_for k q ≡ some sid
      → get_session sid m ≡ some s
      → is_active s.status ≡ true
      → get_cancellation_token sid m ≡ some token
      → ((cancel_queue_item now k q m).0 ≡ true)
        × Cancelled sid token m (cancel_queue_item now k q m).2
        × Left k QueueItemStatus.running (cancel_queue_item now k q m).1
  unfolding cancel_queue_item cancel_linked
  cancel_queue_item_linked sid s token v linked found active known =
      let (done, left) = cancel_item-Left in
      (
        done,
        rw (done, linked) (cancel_session_fires now sid m s token v found active known).1,
        left,
      )

  -- A cancellation that comes after the poll and before the worker has linked a session to the item
  -- reports true and cancels no session: the registry is as it was, and the run goes on.
  pub cancel_queue_item_unlinked :
      session_id_for k q ≡ none
      → ((cancel_queue_item now k q m).0 ≡ true)
        × ((cancel_queue_item now k q m).2 ≡ m)
        × Left k QueueItemStatus.running (cancel_queue_item now k q m).1
  unfolding cancel_queue_item cancel_linked
  cancel_queue_item_unlinked unlinked =
      let (done, left) = cancel_item-Left in (done, rw (done, unlinked, cancel_linked) refl, left)
