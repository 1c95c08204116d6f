-- ===== src/Executor/Tests.antt =====
-- Runs of benchmark-web/src/services/benchmark_executor.rs with given results, and a registry of
-- benchmark-web/src/services/session_manager.rs that holds the session of one.
use llm_benchmark.Common.{
  true, false, String, ◌≡◌, refl, [], ◌∷◌, Option, none, some, if◌then◌else◌, ◌==◌,
}
use llm_benchmark.Status.{RunStatus}
use llm_benchmark.Item.{Category}
use llm_benchmark.Session.{
  BenchmarkSession, Request, new_session, start, increment_completed, set_total_exercises,
}
use llm_benchmark.Session.Heaps.{is_cancelled, new_token}
use llm_benchmark.Queue.Entries.{get_entry, insert_entry}
use llm_benchmark.Manager.{
  SessionManager, new_manager, create_session, get_session, get_cancellation_token, cancel_session,
  update_session,
}
use llm_benchmark.Manager.Tokens.{HasTokens, new_manager-HasTokens, create_session-HasTokens}
use llm_benchmark.Manager.Registered.{
  HasTokens-IsRegistered, IsRegistered-HasTokens, update_session-IsRegistered,
}
use llm_benchmark.Executor.{begin_run, finalize, cancel_overwritten}
use llm_benchmark.Executor.Exercises.{
  AgentResult, ok, execute_single_exercise, execute_all_exercises,
}
use llm_benchmark.Executor.Arms.{World, execute, execute_category, execute_exercises}
use llm_benchmark.Executor.Reported.{succeeds, good_or_failed}
use llm_benchmark.Executor.Outcome.{execute_status}

abbrev passed : AgentResult
passed = record { exercise_name = "two-fer"; output = "out"; success = true; error_message = none }

-- The first language succeeds and the second one does not.
abbrev world : World
world = record {
  show = λ n. if n == 1 then "1" else "2";
  day_of = λ e. "1";
  fired = λ i. false;
  outcome = λ i. if i == 0 then ok passed else ok (record passed { success = false });
  results = λ i. (passed, none) ∷ (passed, some "disk full") ∷ [];
}

abbrev request_of : Option String → Request
request_of exercise = record {
  agent_name = "pi";
  languages = "java" ∷ "go" ∷ [];
  model = "qwen";
  thinking_level = none;
  exercise_name = exercise;
  retry = false;
  timeout_ms = 3600000;
}

abbrev session_of : Option String → BenchmarkSession
session_of exercise =
    (new_session "s" (request_of exercise) (record { buffers = []; channels = []; flags = [] })).0

second_fails : (execute world 1 9 false (session_of (some "two-fer"))).status ≡ RunStatus.failed
unfolding execute new_session finalize start execute_single_exercise increment_completed
second_fails = refl

one_unsaved :
    (execute world 1 9 false (session_of none)).error_message ≡ some "Failed to persist 1 result(s)"
unfolding execute new_session finalize start execute_all_exercises set_total_exercises
one_unsaved = refl

execute_status_example :
    (execute world 1 9 false (session_of (some "two-fer"))).status
    ≡ good_or_failed (succeeds world Category.polyglot (some "two-fer") ("java" ∷ "go" ∷ []))
unfolding new_session
execute_status_example = execute_status world 1 9 false (session_of (some "two-fer")) (λ i e. e)

-- A run of one exercise that succeeds in every language, over the registry that begin_run leaves.
abbrev all_pass : World
all_pass = record world { outcome = λ i. ok passed }

abbrev created : BenchmarkSession × SessionManager
created = create_session "s" (request_of (some "two-fer")) new_manager

abbrev registry : SessionManager
registry = (begin_run 1 created.0 created.1).1

abbrev ran : BenchmarkSession
ran = (execute_category all_pass Category.polyglot (start 1 created.0)).session

registry-HasTokens : HasTokens registry
unfolding begin_run
registry-HasTokens = IsRegistered-HasTokens registry (
    update_session-IsRegistered [] (start 1 created.0) created.1 (
      HasTokens-IsRegistered created.1 (
        create_session-HasTokens "s" (request_of (some "two-fer")) new_manager
          new_manager-HasTokens)))

cancel_overwritten_example :
    let r = (cancel_session 8 "s" registry).1 in
    let f = finalize 9 none (is_cancelled 0 registry.heap) ran in
    ((cancel_session 8 "s" registry).0 ≡ true)
    × (get_session "s" (update_session f r) ≡ some f)
    × (f.status ≡ RunStatus.completed)
    × (is_cancelled 0 (update_session f r).heap ≡ true)
unfolding begin_run create_session new_session new_manager new_token get_session start
    update_session get_cancellation_token insert_entry get_entry is_cancelled execute_category
    execute_exercises execute_single_exercise increment_completed
cancel_overwritten_example =
    cancel_overwritten 8 9 registry ran (start 1 created.0) 0 registry-HasTokens refl refl refl refl
      refl
