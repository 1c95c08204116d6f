-- ===== src/Watchdog.antt =====
-- The command watchdog: CommandWatchdog of crates/benchmark-core/src/docker/watchdog.rs. A timer is
-- its tool call's id, its command and the time it was started, in nanoseconds. The kills are returned
-- as the list of the commands that are killed, in order; the docker call behind each is not modelled.
pub mod Detect
pub mod Timers
pub mod Lines
mod Tests
use llm_benchmark.Common.{
  ℕ, zero, suc, ◌+◌, ◌-◌, ◌*◌, Bool, true, false, String, List, [], ◌∷◌, ◌++◌, Option, none, some,
  if◌then◌else◌, ltb, str_eq, map,
}
use llm_benchmark.Text.{trim, first_line}
use llm_benchmark.Json.{◌>>=◌}

pub record Timer : Type 0 where
  pub id : Option String
  pub command : String
  pub started : ℕ

-- The first line of the command, trimmed: the text that a kill looks for.
unfoldable pub original : String → String
original command = trim (first_line command)

-- `on_tool_call_started` and its synchronous twin.
unfoldable pub on_tool_call_started : ℕ → Option String → String → List Timer → List Timer
on_tool_call_started now id command timers =
    timers ++ record { id = id; command = original command; started = now } ∷ []

-- `tid.as_deref() == Some(id)`.
abbrev pub has_id : String → Option String → Bool
has_id id none = false
has_id id (some tid) = str_eq tid id

-- `iter().position(…)`.
unfoldable pub position : String → List Timer → Option ℕ
position id [] = none
position id (t ∷ ts) =
    if has_id id t.id then some 0 else elim (position id ts) [ none ↦ none | some i ↦ some (suc i) ]

-- `Vec::remove`, which panics (`none`) past the end.
unfoldable pub remove_at : ℕ → List Timer → Option (List Timer)
remove_at i [] = none
remove_at zero (t ∷ ts) = some ts
remove_at (suc i) (t ∷ ts) = remove_at i ts >>= λ rest. some (t ∷ rest)

unfoldable pub cancel_position : Option ℕ → List Timer → Option (Bool × List Timer)
cancel_position none timers = some (false, timers)
cancel_position (some i) timers = remove_at i timers >>= λ rest. some (true, rest)

-- `cancel_timer` and its synchronous twin.
unfoldable pub cancel_timer : String → List Timer → Option (Bool × List Timer)
unfolding cancel_position
cancel_timer id timers = cancel_position (position id timers) timers

-- `cancel_oldest_timer` and its synchronous twin.
unfoldable pub cancel_oldest_timer : List Timer → List Timer
cancel_oldest_timer [] = []
cancel_oldest_timer (t ∷ ts) = ts

-- `on_tool_call_finished`.
unfoldable pub on_tool_call_finished : Option String → List Timer → Option (List Timer)
on_tool_call_finished (some id) timers = cancel_timer id timers >>= λ r. some r.1
on_tool_call_finished none timers = some (cancel_oldest_timer timers)

abbrev pub nanos_per_sec : ℕ
nanos_per_sec = 1000000000

-- `now.duration_since(start) > timeout`: `duration_since` stops at zero, as `-` does.
unfoldable pub is_overdue : ℕ → ℕ → Timer → Bool
is_overdue timeout_secs now t = ltb (timeout_secs * nanos_per_sec) (now - t.started)

-- The loop of `check_timeouts` over the enumerated timers, from index `i` on.
unfoldable pub timed_out : ℕ → ℕ → ℕ → List Timer → List (ℕ × String)
timed_out timeout_secs now i [] = []
timed_out timeout_secs now i (t ∷ ts) =
    if is_overdue timeout_secs now t
    then (i, t.command) ∷ timed_out timeout_secs now (i + 1) ts
    else timed_out timeout_secs now (i + 1) ts

-- The removal of the timers at the listed indices, the last one first.
unfoldable pub remove_rev : List (ℕ × String) → List Timer → Option (List Timer)
remove_rev [] timers = some timers
remove_rev ((i, _) ∷ rest) timers = remove_rev rest timers >>= remove_at i

-- `check_timeouts`: the commands that are killed and the timers that are left; `none` is a panic.
unfoldable pub check_timeouts : ℕ → ℕ → List Timer → Option (List String × List Timer)
check_timeouts timeout_secs now timers =
    let overdue = timed_out timeout_secs now 0 timers in
    remove_rev overdue timers >>= λ left. some (map (λ e. e.1) overdue, left)

-- `close`.
unfoldable pub close : List Timer → List Timer
close timers = []
