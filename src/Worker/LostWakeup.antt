-- ===== src/Worker/LostWakeup.antt =====
-- What the queue worker of benchmark-web/src/services/queue_processor.rs misses between its poll and
-- its wait.
use llm_benchmark.Common.{ℕ, suc, ◌-◌, ◌<◌, true, false, ◌≡◌, refl, ◌∙◌, List, some, arith}
use llm_benchmark.Item.{BenchmarkQueueItem}
use llm_benchmark.Queue.{empty, add_all}
use llm_benchmark.Queue.Steps.{Addable}
use llm_benchmark.Queue.Polling.{poll_next-empty}
use llm_benchmark.Worker.Tokio.{Runtime}
use llm_benchmark.Worker.{Place, Loop, MainStep, TaskStep, CallerStep, Reach, initial}

module _ (runtime : Runtime) where
  open runtime use {
    fresh_stored, stored, waits, wait, wait_registers, notify_waiters, notify_waiters_stored,
    with_permits, available, available_with, acquire_succeeds,
  }

  -- The main loop sleeps until it is notified.
  pub asleep :
      (p : ℕ) (t u : Loop runtime)
      → t.place ≡ Place.item_sleep
      → waits t.notifier ≡ true
      → ¬ MainStep runtime p t u
  asleep p t u a w (MainStep.stops b c e) = cc
  asleep p t u a w (MainStep.is_full b d e) = cc
  asleep p t u a w (MainStep.has_capacity b d e) = cc
  asleep p t u a w (MainStep.acquires m b d e) = cc
  asleep p t u a w (MainStep.pauses b d e) = cc
  asleep p t u a w (MainStep.waits_capacity n b c e) = cc
  asleep p t u a w (MainStep.passes_capacity n b c e) = cc
  asleep p t u a w (MainStep.wakes_capacity b c e) = cc
  asleep p t u a w (MainStep.stops_seeking b c e) = cc
  asleep p t u a w (MainStep.takes i q b d e) = cc
  asleep p t u a w (MainStep.finds_none q b d e) = cc
  asleep p t u a w (MainStep.waits_item n b c e) = cc
  asleep p t u a w (MainStep.passes_item n b c e) = cc
  asleep p t u a w (MainStep.wakes_item b c e) = cc
  asleep p t u a w (MainStep.goes_on b c e) = cc
  asleep p t u a w (MainStep.polls b c e) = cc
  asleep p t u a w (MainStep.counts b e) = cc
  asleep p t u a w (MainStep.spawns b e) = cc

  pub no_task :
      (t u : Loop runtime)
      → t.running ≡ 0
      → t.finishing ≡ 0
      → t.notifying ≡ 0
      → ¬ TaskStep runtime t u
  no_task t u a b c (TaskStep.finishes n m d f e) = omega arith
  no_task t u a b c (TaskStep.releases n d e) = omega arith
  no_task t u a b c (TaskStep.notifies n d e) = omega arith

  -- The state in which the added items wait beside a sleeping loop.
  missed : ℕ → List BenchmarkQueueItem → runtime.Semaphore → Loop runtime
  missed p items after = record {
    place = Place.item_sleep;
    queue = add_all items empty;
    notifier = (wait (notify_waiters runtime.fresh)).1;
    semaphore = after;
    active = 0;
    running = 0;
    finishing = 0;
    notifying = 0;
    shutdown = false;
  }

  registered :
      ((wait (notify_waiters runtime.fresh)).0 ≡ false)
      × (waits (wait (notify_waiters runtime.fresh)).1 ≡ true)
  registered =
      wait_registers (notify_waiters runtime.fresh)
        (notify_waiters_stored runtime.fresh ∙ fresh_stored)

  missed-reached :
      (p : ℕ) (items : List BenchmarkQueueItem) (after : runtime.Semaphore)
      → 0 < p
      → Addable items empty
      → runtime.try_acquire (with_permits p) ≡ some after
      → Reach runtime p (initial runtime p) (missed p items after)
  unfolding initial missed
  missed-reached p items after h a got =
      Reach.main
        (Reach.caller
          (Reach.main
            (Reach.main
              (Reach.main
                (Reach.main (Reach.main Reach.here (MainStep.goes_on refl refl refl))
                  (MainStep.has_capacity refl h refl))
                (MainStep.acquires after refl got refl))
              (MainStep.polls refl refl refl))
            (MainStep.finds_none empty refl poll_next-empty refl))
          (CallerStep.schedules items a refl))
        (MainStep.waits_item (wait (notify_waiters runtime.fresh)).1 refl
          (λ i. (registered.0 i, (wait (notify_waiters runtime.fresh)).1)) refl)

  -- A wake-up is lost: from the start-up of the worker, with any parallelism, there is an
  -- interleaving in which items are added between the poll that finds nothing and the wait, after
  -- which every added item is in the queue, the main loop sleeps, and neither it nor any task has a
  -- step left: only a further call from outside can start the items.
  pub lost_wakeup :
      (p : ℕ) (items : List BenchmarkQueueItem)
      → 0 < p
      → Addable items empty
      → (t : Loop runtime) × Reach runtime p (initial runtime p) t
        × (t.place ≡ Place.item_sleep)
        × (t.queue ≡ add_all items empty)
        × ((u : Loop runtime) → ¬ MainStep runtime p t u)
        × ((u : Loop runtime) → ¬ TaskStep runtime t u)
  unfolding missed
  lost_wakeup p items h a =
      let some_permit : available (with_permits p) ≡ suc (p - 1) =
        omega (arith, available_with p) in
      let (after, got) = acquire_succeeds (with_permits p) (p - 1) some_permit in
      (
        missed p items after,
        missed-reached p items after h a got,
        refl,
        refl,
        (λ u. asleep p (missed p items after) u refl registered.1),
        (λ u. no_task (missed p items after) u refl refl refl),
      )
