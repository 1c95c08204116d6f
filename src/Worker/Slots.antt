-- ===== src/Worker/Slots.antt =====
-- The permits of the queue worker of benchmark-web/src/services/queue_processor.rs.
use llm_benchmark.Common.{ℕ, ◌+◌, ◌≤◌, false, ◌≡◌, arith}
use llm_benchmark.Worker.Tokio.{Runtime}
use llm_benchmark.Worker.{Place, Loop, MainStep, TaskStep, CallerStep, Reach, initial}

-- The permit that the main loop holds between its acquisition and the start of a task.
abbrev pub held : Place → ℕ
held Place.seeking = 1
held Place.polling = 1
held Place.item_gap = 1
held Place.item_sleep = 1
held Place.starting = 1
held Place.spawning = 1
held _ = 0

-- The worker that the main loop has counted before it spawns the task.
abbrev pub ahead : Place → ℕ
ahead Place.spawning = 1
ahead _ = 0

-- What a loop that was aborted may have left in the count.
abbrev pub left_over : Place → ℕ
left_over Place.stopped = 1
left_over _ = 0

module _ (runtime : Runtime) where
  open runtime use {available, available_with, acquire_takes, add_permit_gives}

  abbrev pub slots : Loop runtime → ℕ
  slots s = available s.semaphore + held s.place + s.running + s.finishing

  pub record IsAccounted (parallelism : ℕ) (s : Loop runtime) : Type 0 where
    pub bounded : slots s ≤ parallelism
    pub exact : s.shutdown ≡ false → slots s ≡ parallelism
    pub counted : s.running + ahead s.place ≤ s.active
    pub not_more : s.active ≤ s.running + ahead s.place + left_over s.place

  main-IsAccounted :
      (p : ℕ) (s t : Loop runtime) → MainStep runtime p s t → IsAccounted p s → IsAccounted p t
  main-IsAccounted p s t (MainStep.stops a b e) v = ground arith
  main-IsAccounted p s t (MainStep.goes_on a b e) v = ground arith
  main-IsAccounted p s t (MainStep.polls a b e) v = ground arith
  main-IsAccounted p s t (MainStep.is_full a c e) v = ground arith
  main-IsAccounted p s t (MainStep.has_capacity a c e) v = ground arith
  main-IsAccounted p s t (MainStep.acquires m a d e) v = ground (arith, acquire_takes s.semaphore m)
  main-IsAccounted p s t (MainStep.pauses a d e) v = ground arith
  main-IsAccounted p s t (MainStep.waits_capacity n a b e) v = ground arith
  main-IsAccounted p s t (MainStep.passes_capacity n a b e) v = ground arith
  main-IsAccounted p s t (MainStep.wakes_capacity a b e) v = ground arith
  main-IsAccounted p s t (MainStep.stops_seeking a b e) v =
      ground (arith, add_permit_gives s.semaphore)
  main-IsAccounted p s t (MainStep.takes i q a c e) v = ground arith
  main-IsAccounted p s t (MainStep.finds_none q a c e) v = ground arith
  main-IsAccounted p s t (MainStep.waits_item n a b e) v = ground arith
  main-IsAccounted p s t (MainStep.passes_item n a b e) v = ground arith
  main-IsAccounted p s t (MainStep.wakes_item a b e) v = ground arith
  main-IsAccounted p s t (MainStep.counts a e) v = ground arith
  main-IsAccounted p s t (MainStep.spawns a e) v = ground arith

  task-IsAccounted :
      (p : ℕ) (s t : Loop runtime) → TaskStep runtime s t → IsAccounted p s → IsAccounted p t
  task-IsAccounted p s t (TaskStep.finishes n m a b e) v = ground arith
  task-IsAccounted p s t (TaskStep.releases n a e) v = ground (arith, add_permit_gives s.semaphore)
  task-IsAccounted p s t (TaskStep.notifies n a e) v = ground arith

  caller-IsAccounted :
      (p : ℕ) (s t : Loop runtime) → CallerStep runtime s t → IsAccounted p s → IsAccounted p t
  caller-IsAccounted p s t (CallerStep.schedules items a e) v = ground arith
  caller-IsAccounted p s t (CallerStep.touches c q e) v = ground arith
  caller-IsAccounted p s t (CallerStep.requests_shutdown e) v = ground arith
  caller-IsAccounted p s t (CallerStep.aborts a e) v = ground arith

  -- In every interleaving the permits are accounted for: those that are free, the one that the main
  -- loop holds and those of the tasks make up the parallelism, exactly so until a shutdown is asked
  -- for and never more. While the main loop has not ended, the count of active workers is the number of
  -- running tasks, which are those that have not decremented it, with one more between the count of an
  -- item and the spawning of its task; after its end the count is at most one too high. No more than `parallelism` items are processed at once.
  pub Reach-IsAccounted :
      (p : ℕ) {s t : Loop runtime}
      → IsAccounted p s
      → Reach runtime p s t
      → IsAccounted p t × (t.running ≤ p)
  Reach-IsAccounted p {s} {t} v h = let w = keeps h in (w, ground arith)
    where
      keeps : {u : Loop runtime} → Reach runtime p s u → IsAccounted p u
      keeps Reach.here = v
      keeps (Reach.main r st) = main-IsAccounted p _ _ st (keeps r)
      keeps (Reach.task r st) = task-IsAccounted p _ _ st (keeps r)
      keeps (Reach.caller r st) = caller-IsAccounted p _ _ st (keeps r)

  pub initial-IsAccounted : (p : ℕ) → IsAccounted p (initial runtime p)
  unfolding initial
  initial-IsAccounted p = record {
    bounded = omega (arith, available_with p);
    exact = λ _. omega (arith, available_with p);
    counted = omega arith;
    not_more = omega arith;
  }
