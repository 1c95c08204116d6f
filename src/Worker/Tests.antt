-- ===== src/Worker/Tests.antt =====
-- The queue worker of benchmark-web/src/services/queue_processor.rs over counters, and its theorems at
-- concrete states.
use llm_benchmark.Common.{◌≤◌, false, ◌≡◌, refl, List, [], ◌∷◌, none, arith}
use llm_benchmark.Item.{BenchmarkQueueItem, new_item}
use llm_benchmark.Queue.{empty, add_all}
use llm_benchmark.Worker.Counted.{counted_runtime, take_permit}
use llm_benchmark.Worker.{Place, Loop, MainStep, TaskStep, Reach, initial}
use llm_benchmark.Worker.Slots.{IsAccounted, initial-IsAccounted, Reach-IsAccounted}
use llm_benchmark.Worker.LostWakeup.{lost_wakeup}

abbrev queued : List BenchmarkQueueItem
unfolding new_item
queued = new_item "a" 5 "pi" "qwen" none "java" "two-fer" false ∷ []

-- The worker with parallelism 2 after its first acquisition.
abbrev acquired : Loop counted_runtime
unfolding initial
acquired = record (initial counted_runtime 2) { place = Place.seeking; semaphore = 1 }

Reach-IsAccounted_example : IsAccounted counted_runtime 2 acquired × (acquired.running ≤ 2)
unfolding initial take_permit
Reach-IsAccounted_example =
    Reach-IsAccounted counted_runtime 2 {s = initial counted_runtime 2} {t = acquired}
      (initial-IsAccounted counted_runtime 2)
      (Reach.main
        (Reach.main (Reach.main Reach.here (MainStep.goes_on refl refl refl))
          (MainStep.has_capacity refl (omega arith) refl))
        (MainStep.acquires 1 refl refl refl))

lost_wakeup_example :
    (t : Loop counted_runtime) × Reach counted_runtime 2 (initial counted_runtime 2) t
    × (t.place ≡ Place.item_sleep)
    × (t.queue ≡ add_all queued empty)
    × ((u : Loop counted_runtime) → ¬ MainStep counted_runtime 2 t u)
    × ((u : Loop counted_runtime) → ¬ TaskStep counted_runtime t u)
unfolding new_item empty
lost_wakeup_example = lost_wakeup counted_runtime 2 queued (omega arith) (refl, tt, tt)
