-- ===== src/Session.antt =====
-- A benchmark session: BenchmarkSession of benchmark-web/src/models/session.rs, and the cancellation
-- token of crates/benchmark-types/src/cancellation.rs. What an `Arc` shares (the accumulated output,
-- the broadcast channel, the flag of a token) stands in a heap under an address, so that clones of a
-- session and of a token see one another's writes. A channel is the list of the messages sent; no
-- lock is poisoned. A percentage is kept as the two numbers that the float is computed from.
pub mod Heaps
pub mod Output
use llm_benchmark.Common.{
  ℕ, ◌+◌, ◌%◌, ◌^◌, Bool, String, List, [], ◌∷◌, ◌++◌, Option, none, some, if◌then◌else◌, leb,
  length,
}
use llm_benchmark.Status.{RunStatus}
use llm_benchmark.Item.{Category}
use Heaps.{Heap, modify, drop_first, get_flag}

-- `i32`: `negsuc n` is -(n + 1).
pub data ℤ : Type 0 where
  pos : ℕ → ℤ
  negsuc : ℕ → ℤ

abbrev pub is_positive : ℤ → Bool
is_positive (pos n) = leb 1 n
is_positive (negsuc n) = Bool.false

-- `0.0`, `100.0`, and `(completed as f64 / total as f64) * 100.0`.
pub data Progress : Type 0 where
  nothing hundred : Progress
  percent : ℕ → ℤ → Progress

pub record BenchmarkSession : Type 0 where
  pub id : String
  pub agent_name : String
  pub languages : List String
  pub model : String
  pub category : Category
  pub aoc_user : Option String
  pub thinking_level : Option String
  pub exercise_name : Option String
  pub retry : Bool
  pub status : RunStatus
  pub completed_exercises : ℕ
  pub total_exercises : ℤ
  pub progress : Progress
  pub accumulated_output : ℕ
  pub error_message : Option String
  pub timeout_ms : ℕ
  pub started_at : Option ℕ
  pub finished_at : Option ℕ
  pub msg_tx : ℕ

-- What the caller of `with_category` hands over.
pub record Request : Type 0 where
  pub agent_name : String
  pub languages : List String
  pub model : String
  pub thinking_level : Option String
  pub exercise_name : Option String
  pub retry : Bool
  pub timeout_ms : ℕ

-- `with_category`: a new output buffer and a new channel.
unfoldable pub with_category : String → Request → Category → Heap → BenchmarkSession × Heap
with_category uuid r category h = (
  record {
    id = uuid;
    agent_name = r.agent_name;
    languages = r.languages;
    model = r.model;
    category = category;
    aoc_user = none;
    thinking_level = r.thinking_level;
    exercise_name = r.exercise_name;
    retry = r.retry;
    status = RunStatus.pending;
    completed_exercises = 0;
    total_exercises = pos 0;
    progress = Progress.nothing;
    accumulated_output = length h.buffers;
    error_message = none;
    timeout_ms = r.timeout_ms;
    started_at = none;
    finished_at = none;
    msg_tx = length h.channels;
  },
  record h { buffers = h.buffers ++ [] ∷ []; channels = h.channels ++ [] ∷ [] },
)

-- `new`.
unfoldable pub new_session : String → Request → Heap → BenchmarkSession × Heap
unfolding with_category
new_session uuid r h = with_category uuid r Category.polyglot h

-- `with_category_value` and `with_aoc_user`.
unfoldable pub with_category_value : Category → BenchmarkSession → BenchmarkSession
with_category_value category s = record s { category = category }

unfoldable pub with_aoc_user : Option String → BenchmarkSession → BenchmarkSession
with_aoc_user user s = record s { aoc_user = user }

abbrev pub max_lines : ℕ
max_lines = 10000

-- One push to the ring buffer of `emit_output`: a full buffer loses its first line.
unfoldable pub push_line : String → List String → List String
push_line message out = (if leb max_lines (length out) then drop_first out else out) ++ message ∷ []

-- `emit_output`.
unfoldable pub emit_output : String → BenchmarkSession → Heap → Heap
unfolding push_line
emit_output message s h = record h {
  buffers = modify (push_line message) s.accumulated_output h.buffers;
  channels = modify (λ sent. sent ++ message ∷ []) s.msg_tx h.channels;
}

-- The push of the closure of `make_output_consumer`: without a limit.
abbrev pub push_consumed : String → List String → List String
push_consumed message out = out ++ message ∷ []

-- The closure of `make_output_consumer`, called with one message.
unfoldable pub consume_output : String → BenchmarkSession → Heap → Heap
consume_output message s h = record h {
  buffers = modify (push_consumed message) s.accumulated_output h.buffers;
  channels = modify (λ sent. sent ++ message ∷ []) s.msg_tx h.channels;
}

-- `start`.
unfoldable pub start : ℕ → BenchmarkSession → BenchmarkSession
start now s = record s { status = RunStatus.running; started_at = some now }

-- `complete`.
unfoldable pub complete : ℕ → BenchmarkSession → BenchmarkSession
complete now s = record s {
  status = RunStatus.completed;
  finished_at = some now;
  progress =
      if is_positive s.total_exercises
      then Progress.percent s.completed_exercises s.total_exercises
      else Progress.hundred;
}

-- `cancel`, and `force_complete`, which calls it.
unfoldable pub cancel : ℕ → BenchmarkSession → Heap → BenchmarkSession × Heap
unfolding emit_output
cancel now s h = (
  record s { status = RunStatus.cancelled; finished_at = some now },
  emit_output "Cancelled by user" s h,
)

unfoldable pub force_complete : ℕ → BenchmarkSession → Heap → BenchmarkSession × Heap
unfolding cancel
force_complete = cancel

-- `increment_completed`: a `u32`, which wraps.
unfoldable pub increment_completed : BenchmarkSession → BenchmarkSession
increment_completed s =
    let completed = (s.completed_exercises + 1) % 2 ^ 32 in
    record s {
      completed_exercises = completed;
      progress =
          if is_positive s.total_exercises
          then Progress.percent completed s.total_exercises
          else s.progress;
    }

-- `set_total_exercises` and `set_error_message`.
unfoldable pub set_total_exercises : ℤ → BenchmarkSession → BenchmarkSession
set_total_exercises total s = record s { total_exercises = total }

unfoldable pub set_error_message : String → BenchmarkSession → BenchmarkSession
set_error_message error s = record s { error_message = some error }

-- `language`.
unfoldable pub language : BenchmarkSession → String
language s = elim s.languages [ [] ↦ "" | first ∷ rest ↦ first ]
