-- ===== src/Schedule/Tests.antt =====
-- Runs of the scheduling of benchmark-web/src/services/queue_processor.rs, and its theorems at
-- concrete queues.
use llm_benchmark.Common.{
  true, false, String, arith, ◌≡◌, refl, List, [], ◌∷◌, none, some, map, str_eq, ◌==◌,
  if◌then◌else◌,
}
use llm_benchmark.Item.{new_item}
use llm_benchmark.Queue.{InnerQueue, empty, add_all, get_pending_items}
use llm_benchmark.Queue.Invariant.{Inv, empty-Inv}
use llm_benchmark.Queue.Steps.{here, next, adds, Reach-Inv}
use llm_benchmark.Schedule.{Batch, Catalog, is_skipped, plan, schedule_batch, schedule_aoc}
use llm_benchmark.Schedule.Repeats.{schedule_twice_adds_none}
use llm_benchmark.Schedule.Planning.{pairs, pair_of, plan_exact, requested}

abbrev two_java : String → List String
two_java language = if str_eq language "java" then "two-fer" ∷ "wordy" ∷ [] else []

-- The result of one exercise is there, and the second exercise took longer.
abbrev catalog : Catalog
catalog = record {
  quick_exercises = λ language. if str_eq language "java" then "wordy" ∷ [] else [];
  all_exercises = two_java;
  result_exists = λ exercise agent model language. str_eq exercise "clock";
  previous_duration = λ agent model language exercise. if str_eq exercise "wordy" then 90 else 10;
}

abbrev java_batch : Batch
java_batch = record {
  agent_name = "pi";
  languages = "java" ∷ [];
  model = "qwen";
  thinking_level = none;
  exercise = some "two-fer";
  retry = false;
}

abbrev all_java : Batch
all_java = record java_batch { exercise = none }

abbrev one_waiting : InnerQueue
one_waiting = add_all (new_item "a" 5 "pi" "gemma" none "java" "two-fer" false ∷ []) empty

one_waiting-Inv : Inv one_waiting
unfolding new_item add_all empty
one_waiting-Inv =
    Reach-Inv empty-Inv (
      next here
        (adds (new_item "a" 5 "pi" "gemma" none "java" "two-fer" false ∷ []) (refl, tt, tt)))

slow_batch :
    map pair_of
      (schedule_batch catalog
        (record java_batch { exercise = some "__slow__" })
        5
        ("x" ∷ "y" ∷ [])
        empty).0
    ≡ ("java", "two-fer") ∷ []
unfolding schedule_batch empty
slow_batch = refl

retried_batch :
    map pair_of
      (schedule_batch catalog (record all_java { retry = true }) 5 ("x" ∷ "y" ∷ []) empty).0
    ≡ ("java", "wordy") ∷ ("java", "two-fer") ∷ []
unfolding schedule_batch empty
retried_batch = refl

aoc_days :
    map pair_of
      (schedule_aoc
        (λ day. if day == 1 then "day01" else "day02")
        "pi"
        "qwen"
        none
        "user"
        false
        5
        ("x" ∷ "y" ∷ [])
        (1 ∷ 2 ∷ [])
        empty).0
    ≡ ("aoc2015", "day01") ∷ ("aoc2015", "day02") ∷ []
unfolding schedule_aoc empty
aoc_days = refl

plan_exact_example : plan catalog java_batch (get_pending_items one_waiting) (some "two-fer") ≡ []
unfolding new_item add_all empty requested pairs is_skipped get_pending_items
plan_exact_example = plan_exact catalog java_batch (get_pending_items one_waiting) (some "two-fer")

schedule_twice_adds_none_example :
    schedule_batch catalog java_batch 6
      ("y" ∷ [])
      (schedule_batch catalog java_batch 5 ("x" ∷ []) empty).1
    ≡ ([], (schedule_batch catalog java_batch 5 ("x" ∷ []) empty).1)
unfolding plan get_pending_items empty
schedule_twice_adds_none_example =
    schedule_twice_adds_none catalog java_batch 5 6 ("x" ∷ []) ("y" ∷ []) empty "two-fer" refl refl
      (omega arith)
