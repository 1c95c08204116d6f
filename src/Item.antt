-- ===== src/Item.antt =====
-- One entry of the benchmark queue: BenchmarkQueueItem of benchmark-web/src/models/queue_item.rs,
-- with the benchmark family of crates/benchmark-types/src/category.rs. `Uuid::new_v4` and
-- `Utc::now` are arguments; a time is a number.
use llm_benchmark.Common.{ℕ, Bool, String, Option, none, some, if◌then◌else◌}
use llm_benchmark.Status.{QueueItemStatus, is_pending}

pub data Category : Type 0 where
  polyglot aoc2015 : Category

pub record BenchmarkQueueItem : Type 0 where
  pub id : String
  pub agent_name : String
  pub model : String
  pub thinking_level : Option String
  pub language : String
  pub exercise : String
  pub category : Category
  pub aoc_user : Option String
  pub retry : Bool
  pub status : QueueItemStatus
  pub session_id : Option String
  pub scheduled_at : Option ℕ
  pub started_at : Option ℕ
  pub finished_at : Option ℕ

-- `with_category`: `uuid` and `now` are what `Uuid::new_v4` and `Utc::now` return.
unfoldable pub with_category :
    (uuid : String) (now : ℕ) (agent_name model : String) (thinking_level : Option String)
    (language exercise : String) (retry : Bool) (category : Category)
    → BenchmarkQueueItem
with_category uuid now agent_name model thinking_level language exercise retry category = record {
  id = uuid;
  agent_name = agent_name;
  model = model;
  thinking_level = thinking_level;
  language = language;
  exercise = exercise;
  category = category;
  aoc_user = none;
  retry = retry;
  status = QueueItemStatus.pending;
  session_id = none;
  scheduled_at = some now;
  started_at = none;
  finished_at = none;
}

-- `new`.
unfoldable pub new_item :
    (uuid : String) (now : ℕ) (agent_name model : String) (thinking_level : Option String)
    (language exercise : String) (retry : Bool)
    → BenchmarkQueueItem
unfolding with_category
new_item uuid now agent_name model thinking_level language exercise retry =
    with_category uuid now agent_name model thinking_level language exercise retry Category.polyglot

-- `cancel(&mut self)`: only a pending item changes.
unfoldable pub cancel : ℕ → BenchmarkQueueItem → BenchmarkQueueItem
cancel now item =
    if is_pending item.status
    then record item { status = QueueItemStatus.cancelled; finished_at = some now }
    else item

-- `retry(&mut self) -> Self`: the item left in place, and the clone that is returned, which the
-- code takes before it resets the item.
unfoldable pub retry_left : BenchmarkQueueItem → BenchmarkQueueItem
retry_left item = record item {
  status = QueueItemStatus.pending;
  session_id = none;
  started_at = none;
  finished_at = none;
}

unfoldable pub retry_returned : BenchmarkQueueItem → BenchmarkQueueItem
retry_returned item = item

-- `with_aoc_user`.
unfoldable pub with_aoc_user : String → BenchmarkQueueItem → BenchmarkQueueItem
with_aoc_user user item = record item { aoc_user = some user }
