-- ===== src/Worker.antt =====
-- The queue worker: `start_queue_worker` and `shutdown` of
-- benchmark-web/src/services/queue_processor.rs, with the notifier of
-- benchmark-web/src/models/queue.rs (`add`, `add_all`, `notify_capacity`, `wait_for_item`). The
-- main loop, the tasks that it spawns and the callers interleave; a step is what happens between
-- two points at which the code awaits or takes a lock. tokio's `Notify` and `Semaphore` are
-- parameters.
pub mod Tokio
pub mod Counted
pub mod Slots
pub mod LostWakeup
mod Tests
use llm_benchmark.Common.{
  ℕ, suc, ◌+◌, ◌≤◌, ◌<◌, Bool, true, false, ◌≡◌, List, [], ◌∷◌, Option, none, some,
}
use llm_benchmark.Item.{BenchmarkQueueItem}
use llm_benchmark.Queue.{InnerQueue, empty, add_all, poll_next}
use llm_benchmark.Queue.Steps.{Addable}
use llm_benchmark.Queue.Steps
use Tokio.{Runtime}

-- Where the main loop stands: at its top; about to look for capacity; about to wait, or waiting, for
-- capacity; about to try for a permit; holding a permit and about to look for a shutdown, or to poll; about to wait, or waiting,
-- for an item; about to count the item that it has polled, or to spawn its task; ended.
pub data Place : Type 0 where
  top capacity_check capacity_gap capacity_sleep acquiring seeking polling item_gap item_sleep
        starting spawning stopped :
      Place

-- A call on the queue that neither adds nor polls.
abbrev pub IsQuiet : {q r : InnerQueue} → Steps.Step q r → Type 0
IsQuiet (Steps.Step.adds items a) = ⊥
IsQuiet Steps.Step.polls = ⊥
IsQuiet _ = Unit {0}

module _ (runtime : Runtime) where
  open runtime use {
    Notifier, fresh, wait, waits, notify_one, notify_waiters, Semaphore, with_permits, try_acquire,
    add_permit,
  }

  -- `running` counts the tasks that process an item or are about to decrement the number of active
  -- workers, `finishing` those that have decremented it, `notifying` those that have released their
  -- permit.
  pub record Loop : Type 0 where
    pub place : Place
    pub queue : InnerQueue
    pub notifier : Notifier
    pub semaphore : Semaphore
    pub active : ℕ
    pub running : ℕ
    pub finishing : ℕ
    pub notifying : ℕ
    pub shutdown : Bool

  -- `QueueProcessor::new`, and the start of the loop.
  unfoldable pub initial : ℕ → Loop
  initial parallelism = record {
    place = Place.top;
    queue = empty;
    notifier = fresh;
    semaphore = with_permits parallelism;
    active = 0;
    running = 0;
    finishing = 0;
    notifying = 0;
    shutdown = false;
  }

  -- The main loop.
  pub data MainStep (parallelism : ℕ) (s t : Loop) : Type 0 where
    stops :
        s.place ≡ Place.top
        → s.shutdown ≡ true
        → t ≡ record s { place = Place.stopped }
        → MainStep parallelism s t
    goes_on :
        s.place ≡ Place.top
        → s.shutdown ≡ false
        → t ≡ record s { place = Place.capacity_check }
        → MainStep parallelism s t
    is_full :
        s.place ≡ Place.capacity_check
        → parallelism ≤ s.active
        → t ≡ record s { place = Place.capacity_gap }
        → MainStep parallelism s t
    has_capacity :
        s.place ≡ Place.capacity_check
        → s.active < parallelism
        → t ≡ record s { place = Place.acquiring }
        → MainStep parallelism s t
    acquires :
        (after : Semaphore)
        → s.place ≡ Place.acquiring
        → try_acquire s.semaphore ≡ some after
        → t ≡ record s { place = Place.seeking; semaphore = after }
        → MainStep parallelism s t
    pauses :
        s.place ≡ Place.acquiring
        → try_acquire s.semaphore ≡ none
        → t ≡ record s { place = Place.top }
        → MainStep parallelism s t
    waits_capacity :
        (after : Notifier)
        → s.place ≡ Place.capacity_gap
        → wait s.notifier ≡ (false, after)
        → t ≡ record s { place = Place.capacity_sleep; notifier = after }
        → MainStep parallelism s t
    passes_capacity :
        (after : Notifier)
        → s.place ≡ Place.capacity_gap
        → wait s.notifier ≡ (true, after)
        → t ≡ record s { place = Place.top; notifier = after }
        → MainStep parallelism s t
    wakes_capacity :
        s.place ≡ Place.capacity_sleep
        → waits s.notifier ≡ false
        → t ≡ record s { place = Place.top }
        → MainStep parallelism s t
    stops_seeking :
        s.place ≡ Place.seeking
        → s.shutdown ≡ true
        → t ≡ record s { place = Place.stopped; semaphore = add_permit s.semaphore }
        → MainStep parallelism s t
    polls :
        s.place ≡ Place.seeking
        → s.shutdown ≡ false
        → t ≡ record s { place = Place.polling }
        → MainStep parallelism s t
    takes :
        (item : BenchmarkQueueItem) (after : InnerQueue)
        → s.place ≡ Place.polling
        → poll_next s.queue ≡ (some item, after)
        → t ≡ record s { place = Place.starting; queue = after }
        → MainStep parallelism s t
    finds_none :
        (after : InnerQueue)
        → s.place ≡ Place.polling
        → poll_next s.queue ≡ (none, after)
        → t ≡ record s { place = Place.item_gap; queue = after }
        → MainStep parallelism s t
    waits_item :
        (after : Notifier)
        → s.place ≡ Place.item_gap
        → wait s.notifier ≡ (false, after)
        → t ≡ record s { place = Place.item_sleep; notifier = after }
        → MainStep parallelism s t
    passes_item :
        (after : Notifier)
        → s.place ≡ Place.item_gap
        → wait s.notifier ≡ (true, after)
        → t ≡ record s { place = Place.seeking; notifier = after }
        → MainStep parallelism s t
    wakes_item :
        s.place ≡ Place.item_sleep
        → waits s.notifier ≡ false
        → t ≡ record s { place = Place.seeking }
        → MainStep parallelism s t
    counts :
        s.place ≡ Place.starting
        → t ≡ record s { place = Place.spawning; active = s.active + 1 }
        → MainStep parallelism s t
    spawns :
        s.place ≡ Place.spawning
        → t ≡ record s { place = Place.top; running = s.running + 1 }
        → MainStep parallelism s t

  -- The end of a spawned task: one active worker less, the permit given back, the loop notified.
  pub data TaskStep (s t : Loop) : Type 0 where
    finishes :
        (n m : ℕ)
        → s.running ≡ suc n
        → s.active ≡ suc m
        → t ≡ record s { running = n; active = m; finishing = s.finishing + 1 }
        → TaskStep s t
    releases :
        (n : ℕ)
        → s.finishing ≡ suc n
        → t ≡ record s {
          finishing = n;
          semaphore = add_permit s.semaphore;
          notifying = s.notifying + 1;
        }
        → TaskStep s t
    notifies :
        (n : ℕ)
        → s.notifying ≡ suc n
        → t ≡ record s { notifying = n; notifier = notify_one s.notifier }
        → TaskStep s t

  -- The callers: `add_all` with its notification, the other calls on the queue, and the two parts
  -- of `shutdown`, which sets the flag and then aborts the main loop.
  pub data CallerStep (s t : Loop) : Type 0 where
    schedules :
        (items : List BenchmarkQueueItem)
        → Addable items s.queue
        → t ≡ record s { queue = add_all items s.queue; notifier = notify_waiters s.notifier }
        → CallerStep s t
    touches :
        {r : InnerQueue} (call : Steps.Step s.queue r)
        → IsQuiet call
        → t ≡ record s { queue = r }
        → CallerStep s t
    requests_shutdown : t ≡ record s { shutdown = true } → CallerStep s t
    aborts : s.shutdown ≡ true → t ≡ record s { place = Place.stopped } → CallerStep s t

  pub data Reach (parallelism : ℕ) (s : Loop) : Loop → Type 0 where
    here : Reach parallelism s s
    main : {t u : Loop} → Reach parallelism s t → MainStep parallelism t u → Reach parallelism s u
    task : {t u : Loop} → Reach parallelism s t → TaskStep t u → Reach parallelism s u
    caller : {t u : Loop} → Reach parallelism s t → CallerStep t u → Reach parallelism s u
