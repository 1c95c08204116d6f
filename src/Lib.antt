-- ===== src/Lib.antt =====
-- A verification library for llm-benchmark, a harness that runs coding agents on exercises in Docker
-- containers, queues the runs, streams their output to a dashboard, and validates answers to puzzles.
--
-- The parts that are modelled, with the files of the repository and of this library:
--
-- * The benchmark queue (benchmark-web/src/models/queue.rs, queue_item.rs, status.rs): Status, Item,
--   Queue. One mutex guards the queue, so `InnerQueue` is a record and each method (`add`, `add_all`,
--   `poll_next`, `complete_current`, `fail_current`, `cancel_item`, `clear_pending`,
--   `clear_terminal_items`, `clear_all`, `retry_item`, `set_session_id`) a function on it under the
--   method's name; Queue/Steps has them as the steps of a relation. `Queue/Entries` has the loops over
--   the items, `Queue/Ids` and `Queue/Updates` the lemmas on ids and states,
--   `Queue/Invariant`, `Queue/Polling`, `Queue/Clearing`, `Queue/Outcomes`, `Queue/Endings`, `Queue/Stuck` and `Queue/Retrying` the proofs.
-- * The queue worker (benchmark-web/src/services/queue_processor.rs, `start_queue_worker` and
--   `shutdown`): Worker. The main loop, the spawned tasks and the callers are three step relations
--   over one state, with the queue above in it; their interleavings are `Reach`. tokio's `Notify` and
--   `Semaphore` are the record of operations and laws `Worker/Tokio`, which Worker/Counted fills.
-- * Scheduling (queue_processor.rs, `schedule_batch` and `schedule_aoc`): Schedule, with the arms of the
--   match as `slow_plan`, `quick_plan`, `single_plan` and `full_plan`. Exercise lists and stored
--   results are the record `Catalog`. Schedule/Planning, Schedule/Repeats, Schedule/Overlap and
--   Schedule/Sorting have the proofs.
-- * The processing of an item (queue_processor.rs, `process_queue_item`, `cancel_queue_item`,
--   `clear_all`): Processor. The executor, the other callers in the meantime and what the waiting loop
--   sees are arguments. Processor/Waiting is about the loop, Processor/Ending and
--   Processor/Cancelling about the item.
-- * Sessions (benchmark-web/src/models/session.rs, crates/benchmark-types/src/cancellation.rs):
--   Session. What clones share by `Arc` is a cell of a heap (Session/Heaps); the float percentage is
--   kept as the two numbers it is computed from.
-- * The session registry (benchmark-web/src/services/session_manager.rs): Manager, with the same
--   method names. `create_session` takes its two locks one after the other: `insert_session` and
--   `insert_token` are its halves, and steps of their own in Manager/Steps. The other calls take their
--   locks in one order and hold them, so each is one step. Manager/Tokens, Manager/Registered and
--   Manager/Steps have the proofs.
-- * A run (benchmark-web/src/services/benchmark_executor.rs, `execute`): Executor has the start and
--   the final part, Executor/Exercises the loops over languages and exercises, Executor/Arms the AoC
--   day and the choice between the kinds of runs. What the runner returns and the readings of the
--   token are the record `World`. Executor/Reported, Executor/Failures and Executor/Outcome have the
--   proofs.
-- * The command watchdog (crates/benchmark-core/src/docker/watchdog.rs): Watchdog has the timers and
--   their expiry, Watchdog/Detect the detection of tool calls in a line of JSON. Json and Text have
--   the accessors of `serde_json::Value` and the text functions that it calls; the JSON parser is a
--   parameter.
-- * The stream parser (crates/benchmark-core/src/docker/stream_parser.rs): StreamParser. What a line
--   asks of the watchdog is a list of actions, which `run` carries out in order. StreamParser/Timing is
--   about the timers that it leaves, StreamParser/Calls about the messages.
-- * The parallel executor (crates/benchmark-core/src/parallel/mod.rs): Parallel, a step relation on the
--   handles that are not awaited yet, over the semaphore of Worker/Tokio.
-- * The puzzles of Advent of Code 2015 (crates/benchmark-aoc2015): Aoc/Rng has the generator of random
--   numbers, whose 64-bit arithmetic panics on overflow as a build with overflow checks does, and
--   Aoc/Day10 look-and-say, whose texts are lists of bytes.
-- * The model-load gate (crates/benchmark-core/src/model_load.rs): ModelLoad reads the answers of the
--   server, ModelLoad/Gate has `probe`, the waiting loop and `ensure_ready`. The client and the clock are
--   the record `Network`. ModelLoad/Probing, ModelLoad/Waiting and ModelLoad/Outcomes have the proofs.
-- * Reasoning settings (crates/benchmark-types/src/reasoning.rs): Reasoning, with glob patterns in
--   Reasoning/Patterns and the registry in Reasoning/Registry. Reasoning/Globs has the meaning of a
--   pattern, Reasoning/Greedy and Reasoning/Exact compare the two, Reasoning/Lookups is about the registry.
-- * Advent of Code runs (crates/benchmark-core/src/aoc_runner.rs, crates/benchmark-types/src/aoc.rs,
--   benchmark-web/src/services/aoc_validator.rs): AocRun has the days and the validator, AocRun/Runner
--   the runner; AocRun/Answers, AocRun/Agreement and AocRun/Runs have the proofs.
-- * Wall-clock time (crates/benchmark-types/src/agent/mod.rs): Stats merges intervals; Stats/Measure
--   counts what they cover.
-- * The result service (benchmark-web/src/services/result_service): Results has the filters and the loop
--   of `get_statistics`, Results/Completeness `get_completeness_info`; QuickBench has the exercises of
--   the quick benchmark (crates/benchmark-types/src/config/mod.rs). Results/Groups, Results/Sums,
--   Results/WallClock and Results/Keys have the proofs.
--
-- * The configuration (crates/benchmark-types/src/config/mod.rs): Config, with the directory of a run in
--   Config/RunDirs. Config/Validity, Config/Environment, Config/ModelNames and Config/EarlyRuns have the
--   proofs. Maps has the association lists that stand for hash maps here and in Results.
-- * The exercise suite (crates/benchmark-exercises/src/lib.rs,
--   crates/benchmark-core/src/exercise_runner/mod.rs): Suite has `EmbeddedSource`, Suite/Discovery and
--   Suite/Building what the runner finds in it, Suite/Stream `run_all_exercises` as a step relation.
--   Suite/Listing, Suite/Names, Suite/Counts and Suite/Runs have the proofs; Ordering has the order of
--   texts and the sort.
--
-- How they interact: the worker polls the queue, creates a session for the item in the registry and
-- runs the executor, which reads the session's cancellation token and hands the final session back to
-- the registry; the worker then ends or cancels the item of the queue. The container's output goes
-- line by line through the watchdog. Before each day the runner asks the model-load gate; results end in
-- the cache of the result service, whose wall-clock times are merged intervals.
--
-- Bounds: counters of 32 bits wrap as written; the output buffer's limit of 10000 lines and the
-- time units are the code's. The waiting loop takes fuel; 7802 looks are enough, since each takes
-- 500 ms and none decides nothing after 3900 s. The gate's waiting loop takes fuel; one probe for
-- each 2 s of the timeout and two more are enough, after the first probe, which takes none. All
-- other recursions are on lists. Counts and token sums of the result service are exact numbers,
-- without the limits of i32 and u64.
--
-- Not modelled: web routes, templates and assets, the serde attributes of the configuration,
-- Docker and process control, persistence, report formatting, and the statistics on floating point
-- numbers; a panic of one of the worker's tasks, which would keep its permit; poisoned locks,
-- whose state the code takes over as it is.
pub mod Common
pub mod Status
pub mod Item
pub mod Queue
pub mod Worker
pub mod Schedule
pub mod Session
pub mod Manager
pub mod Executor
pub mod Text
pub mod Json
pub mod Processor
pub mod Watchdog
pub mod StreamParser
pub mod Parallel
pub mod Aoc
pub mod AocRun
pub mod ModelLoad
pub mod Reasoning
pub mod Stats
pub mod QuickBench
pub mod Results
pub mod Maps
pub mod Config
pub mod Ordering
pub mod Suite
