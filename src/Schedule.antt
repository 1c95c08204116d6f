-- ===== src/Schedule.antt =====
-- Scheduling: `schedule_batch` and `schedule_aoc` of
-- benchmark-web/src/services/queue_processor.rs. The curated list of quick exercises, the exercises
-- of a language, the stored results and the earlier durations are arguments; `uuids` are the values
-- that `Uuid::new_v4` returns, in their order.
pub mod Planning
pub mod Sorting
pub mod Repeats
pub mod Overlap
mod Tests
use llm_benchmark.Text.{str_append}
use llm_benchmark.Common.{
  ℕ, suc, ◌+◌, Bool, true, false, String, List, [], ◌∷◌, ◌++◌, Option, none, some, if◌then◌else◌,
  not, ◌&&◌, ◌||◌, str_eq, ltb, any, retain, map,
}
use llm_benchmark.Item.{BenchmarkQueueItem, Category, with_category, new_item, with_aoc_user}
use llm_benchmark.Queue.{InnerQueue, add_all, get_pending_items}

-- What one batch asks for.
pub record Batch : Type 0 where
  pub agent_name : String
  pub languages : List String
  pub model : String
  pub thinking_level : Option String
  pub exercise : Option String
  pub retry : Bool

-- What the processor reads: exercise lists, and results by exercise, agent, model and language.
pub record Catalog : Type 0 where
  pub quick_exercises : String → List String
  pub all_exercises : String → List String
  pub result_exists : String → String → String → String → Bool
  pub previous_duration : String → String → String → String → ℕ

-- The key by which a pending item is recognised: agent, language and exercise.
abbrev pub same_key : String → String → String → BenchmarkQueueItem → Bool
same_key agent language exercise item =
    str_eq item.agent_name agent && str_eq item.language language && str_eq item.exercise exercise

-- `existing_keys.contains(&key)`.
unfoldable pub is_queued : String → String → String → List BenchmarkQueueItem → Bool
is_queued agent language exercise existing = any (same_key agent language exercise) existing

-- The exercises of one language that a loop body lets through.
unfoldable pub kept :
    (skip : String → String → Bool) → String → List String → List (String × String)
kept skip language [] = []
kept skip language (exercise ∷ rest) =
    if skip language exercise
    then kept skip language rest
    else (language, exercise) ∷ kept skip language rest

-- The loop over the languages.
unfoldable pub each_language :
    (skip : String → String → Bool) → (String → List String) → List String → List (String × String)
unfolding kept
each_language skip exercises [] = []
each_language skip exercises (language ∷ rest) =
    kept skip language (exercises language) ++ each_language skip exercises rest

-- `filter(|e| !quick_set.contains(e))`.
unfoldable pub slow_exercises : Catalog → String → List String
slow_exercises c language =
    retain (λ e. not (any (λ q. str_eq q e) (c.quick_exercises language)))
      (c.all_exercises language)

module _ (c : Catalog) (b : Batch) (existing : List BenchmarkQueueItem) where
  -- `!retry && self.result_exists(…)`.
  unfoldable pub is_done : String → String → Bool
  is_done language exercise = not b.retry && c.result_exists exercise b.agent_name b.model language

  -- The two tests that skip an exercise.
  unfoldable pub is_skipped : String → String → Bool
  unfolding is_done is_queued
  is_skipped language exercise =
      is_done language exercise
      || (not b.retry && is_queued b.agent_name language exercise existing)

  -- The four arms of the match on the exercise: slow, quick, one exercise, all of them. The last one
  -- tests for results only.
  unfoldable pub slow_plan : List (String × String)
  unfolding each_language is_skipped slow_exercises
  slow_plan = each_language is_skipped (slow_exercises c) b.languages

  unfoldable pub quick_plan : List (String × String)
  unfolding each_language is_skipped
  quick_plan = each_language is_skipped c.quick_exercises b.languages

  unfoldable pub single_plan : String → List (String × String)
  unfolding each_language is_skipped
  single_plan exercise = each_language is_skipped (λ _. exercise ∷ []) b.languages

  unfoldable pub full_plan : List (String × String)
  unfolding each_language is_done
  full_plan = each_language is_done c.all_exercises b.languages

  unfoldable pub plan : Option String → List (String × String)
  unfolding slow_plan quick_plan single_plan full_plan
  plan none = full_plan
  plan (some exercise) =
      if str_eq exercise "__slow__"
      then slow_plan
      else if str_eq exercise "__quick__"
      then quick_plan
      else single_plan exercise

-- One item for each pair, with the ids in their order; the supply of ids does not run out.
unfoldable pub make_items :
    Batch → ℕ → List String → List (String × String) → List BenchmarkQueueItem
unfolding new_item
make_items b now uuids [] = []
make_items b now [] (pair ∷ pairs) = []
make_items b now (uuid ∷ uuids) ((language, exercise) ∷ pairs) =
    new_item uuid now b.agent_name b.model b.thinking_level language exercise b.retry
    ∷ make_items b now uuids pairs

-- The text that stands for an item among the durations.
unfoldable pub duration_key : BenchmarkQueueItem → String
unfolding str_append
duration_key item = str_append item.agent_name (
    str_append ":" (
      str_append item.model
        (str_append ":" (str_append item.language (str_append ":" item.exercise)))))

-- `durations`: a hash map, in which a later entry replaces an earlier one with the same key, and a
-- missing key counts as 0.
unfoldable pub durations : Catalog → List BenchmarkQueueItem → String → ℕ
unfolding duration_key
durations c [] key = 0
durations c (item ∷ items) key =
    let rest = durations c items key in
    if any (λ later. str_eq (duration_key later) key) items
    then rest
    else if str_eq (duration_key item) key
    then c.previous_duration item.agent_name item.model item.language item.exercise
    else 0

-- `sort_by(|a, b| b_dur.cmp(&a_dur))`: stable, the longest first.
insert_by :
    (BenchmarkQueueItem → ℕ)
    → BenchmarkQueueItem
    → List BenchmarkQueueItem
    → List BenchmarkQueueItem
insert_by duration x [] = x ∷ []
insert_by duration x (y ∷ ys) =
    if ltb (duration x) (duration y) then y ∷ insert_by duration x ys else x ∷ y ∷ ys

unfoldable pub sort_slowest_first :
    (BenchmarkQueueItem → ℕ) → List BenchmarkQueueItem → List BenchmarkQueueItem
unfolding insert_by
sort_slowest_first duration [] = []
sort_slowest_first duration (x ∷ xs) = insert_by duration x (sort_slowest_first duration xs)

-- A retry queues the slowest first.
unfoldable pub in_order : Catalog → Bool → List BenchmarkQueueItem → List BenchmarkQueueItem
unfolding sort_slowest_first durations duration_key
in_order c retry made =
    if retry then sort_slowest_first (λ item. durations c made (duration_key item)) made else made

-- `schedule_batch`: the items that are added, and the queue after it.
unfoldable pub schedule_batch :
    Catalog → Batch → ℕ → List String → InnerQueue → List BenchmarkQueueItem × InnerQueue
unfolding plan make_items in_order get_pending_items
schedule_batch c b now uuids q =
    let made = make_items b now uuids (plan c b (get_pending_items q) b.exercise) in
    let items = in_order c b.retry made in (items, add_all items q)

-- The loop of `schedule_aoc`: one item for each day; `exercise_of` is `format!("day{day:02}")`.
unfoldable pub aoc_items :
    (exercise_of : ℕ → String) (agent model : String) (thinking_level : Option String)
    (user : String) (retry : Bool) (existing : List BenchmarkQueueItem) (now : ℕ)
    → List String
    → List ℕ
    → List BenchmarkQueueItem
unfolding with_category with_aoc_user is_queued
aoc_items exercise_of agent model thinking user retry existing now uuids [] = []
aoc_items exercise_of agent model thinking user retry existing now [] (day ∷ days) = []
aoc_items exercise_of agent model thinking user retry existing now (uuid ∷ uuids) (day ∷ days) =
    if not retry && is_queued agent "aoc2015" (exercise_of day) existing
    then aoc_items exercise_of agent model thinking user retry existing now (uuid ∷ uuids) days
    else with_aoc_user user (
        with_category uuid now agent model thinking "aoc2015" (exercise_of day) retry
          Category.aoc2015)
      ∷ aoc_items exercise_of agent model thinking user retry existing now uuids days

-- `schedule_aoc`.
unfoldable pub schedule_aoc :
    (exercise_of : ℕ → String) (agent model : String) (thinking_level : Option String)
    (user : String) (retry : Bool) (now : ℕ)
    → List String
    → List ℕ
    → InnerQueue
    → List BenchmarkQueueItem × InnerQueue
unfolding aoc_items get_pending_items
schedule_aoc exercise_of agent model thinking user retry now uuids days q =
    let items =
      aoc_items exercise_of agent model thinking user retry (get_pending_items q) now uuids days in
    (items, add_all items q)
