-- ===== src/Watchdog/Lines.antt =====
-- What the lines that crates/benchmark-core/src/docker/watchdog.rs forwards do to the timers, and
-- which finished calls keep one.
use llm_benchmark.Common.{
  ℕ, true, String, ◌≡◌, refl, ap, ◌∙◌, List, [], ◌∷◌, Option, none, some, arith, eq_iff,
  str_eq_self,
}
use llm_benchmark.Json.{Value, get, get_str, has_text, is_text, ◌>>=◌}
use llm_benchmark.Watchdog.{
  Timer, original, on_tool_call_started, cancel_timer, cancel_position, position, remove_at,
  cancel_oldest_timer, is_overdue, check_timeouts,
}
use llm_benchmark.Watchdog.Detect.{
  Action, detect, extract_bash_call, extract_tool_result_id, is_tool_result, content_items,
  find_map, claude_call, claude_result_id, pi_execution_start,
}
use llm_benchmark.Watchdog.Timers.{check_timeouts_exact}

-- What the task of an action does when it runs.
unfoldable pub apply : ℕ → Action → List Timer → Option (List Timer)
apply now (Action.start id command) ts = some (on_tool_call_started now id command ts)
apply now (Action.cancel id) ts = cancel_timer id ts >>= λ r. some r.1
apply now Action.cancel_oldest ts = some (cancel_oldest_timer ts)

pub has_text-eq : (k t : String) (v : Value) → has_text k t v ≡ true → get_str k v ≡ some t
unfolding has_text
has_text-eq k t v h = from (get_str k v) h
  where
    from : (o : Option String) → is_text o t ≡ true → o ≡ some t
    from none h = cc
    from (some s) h = ap some ((eq_iff s t).0 h)

-- Of several Bash calls in one assistant message only the first gets a timer: what stands after it
-- makes no difference.
pub only_first_call_timed :
    (root item : Value) (rest : List Value) (id : Option String) (command : String)
    → content_items root ≡ some (item ∷ rest)
    → claude_call item ≡ some (id, command)
    → detect root ≡ some (Action.start id command)
unfolding detect extract_bash_call find_map
only_first_call_timed root item rest id command content call = ground arith

-- Of several results in one user message only the first cancels a timer: with the timers of two
-- calls running, the second one stays, and once it is overdue its command is killed although the
-- call has finished.
pub second_result_ignored :
    (root item : Value) (rest : List Value) (id : String) (first second : Timer)
    (now timeout_secs : ℕ)
    → has_text "type" "user" root ≡ true
    → extract_bash_call root ≡ none
    → content_items root ≡ some (item ∷ rest)
    → claude_result_id item ≡ some id
    → first.id ≡ some id
    → is_overdue timeout_secs now second ≡ true
    → (detect root ≡ some (Action.cancel id))
      × (apply now (Action.cancel id) (first ∷ second ∷ []) ≡ some (second ∷ []))
      × (check_timeouts timeout_secs now (second ∷ []) ≡ some (second.command ∷ [], []))
unfolding detect extract_tool_result_id find_map apply cancel_timer cancel_position position
    remove_at
second_result_ignored root item rest id first second now timeout_secs user call content result own
      late =
    (
      ground arith,
      rw (own, str_eq_self id) refl,
      check_timeouts_exact timeout_secs now (second ∷ []) ∙ rw late refl,
    )

-- The tasks of two lines may run in either order. In the order of the lines a call and its result
-- leave no timer; the other way round the timer of the finished call stays.
pub reordered_tasks_leave_timer :
    (now : ℕ) (id command : String)
    → ((apply now (Action.start (some id) command) [] >>= apply now (Action.cancel id)) ≡ some [])
      × ((apply now (Action.cancel id) [] >>= apply now (Action.start (some id) command))
          ≡ some (record { id = some id; command = original command; started = now } ∷ []))
unfolding apply cancel_timer cancel_position position remove_at on_tool_call_started
reordered_tasks_leave_timer now id command = (rw (str_eq_self id) refl, refl)

-- The end of any pi tool, Bash or not, whatever tool name and id its event carries, cancels the
-- oldest timer.
pub any_tool_end_cancels_oldest :
    (root : Value)
    → has_text "type" "tool_execution_end" root ≡ true
    → get "message" root ≡ none
    → detect root ≡ some Action.cancel_oldest
unfolding detect extract_bash_call extract_tool_result_id is_tool_result content_items find_map
    pi_execution_start has_text
any_tool_end_cancels_oldest root ends plain =
    let type = has_text-eq "type" "tool_execution_end" root ends in ground (arith, type)
