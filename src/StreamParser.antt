-- ===== src/StreamParser.antt =====
-- The stream parser: StreamParser of crates/benchmark-core/src/docker/stream_parser.rs, over the
-- timers of the watchdog, which it calls on the spot. What a line asks of the watchdog is a list of
-- actions; `clock i` is the time that the action number `i` reads. serde's parser is a parameter.
pub mod Timing
pub mod Calls
mod Tests
use llm_benchmark.Common.{
  ℕ, zero, suc, Bool, true, false, String, List, [], ◌∷◌, ◌++◌, Option, none, some, if◌then◌else◌,
  not, ◌&&◌, ◌||◌,
}
use llm_benchmark.Text.{trim, is_empty, starts_with_brace, eq_ignore_ascii_case}
use llm_benchmark.Json.{Value, get, get_str, as_array, is_object, has_text, ◌>>=◌}
use llm_benchmark.Watchdog.{Timer}
use llm_benchmark.Watchdog.Detect.{Action, or_else, is_bash, items_or_none, content_items}
use llm_benchmark.Watchdog.Lines.{apply}

-- A loop whose body adds actions.
unfoldable pub flat_map : (Value → List Action) → List Value → List Action
flat_map f [] = []
flat_map f (v ∷ vs) = f v ++ flat_map f vs

-- `extract_command`.
unfoldable pub extract_command : Value → Option String
extract_command node = do
  input ← or_else (get "input" node) (get "arguments" node)
  get_str "command" input

-- `on_tool_call_started_sync`, if there is a command.
abbrev pub start_with : Option String → Option String → List Action
start_with id none = []
start_with id (some command) = Action.start id command ∷ []

-- `cancel_timer_sync` of an id, or `cancel_oldest_timer_sync`.
abbrev pub cancel_by : Option String → List Action
cancel_by none = Action.cancel_oldest ∷ []
cancel_by (some id) = Action.cancel id ∷ []

unfoldable pub claude_start : Value → List Action
claude_start item =
    if has_text "type" "tool_use" item && has_text "name" "Bash" item
    then start_with (get_str "id" item) (extract_command item)
    else []

unfoldable pub claude_result : Value → List Action
claude_result item =
    if has_text "type" "tool_result" item then cancel_by (get_str "tool_use_id" item) else []

-- `parse_claude_format`.
unfoldable pub parse_claude_format : Value → List Action
unfolding claude_start claude_result
parse_claude_format root =
    (if has_text "type" "assistant" root
      then flat_map claude_start (items_or_none (content_items root))
      else [])
    ++ (if has_text "type" "user" root
        then flat_map claude_result (items_or_none (content_items root))
        else [])

-- The items of a content: those of an array, or the content itself.
unfoldable pub pi_items : Value → List Value
pi_items content = elim (as_array content) [ none ↦ content ∷ [] | some items ↦ items ]

unfoldable pub pi_start : Value → List Action
pi_start item =
    if has_text "type" "toolCall" item && is_bash "name" item
    then start_with (get_str "id" item) (get "arguments" item >>= get_str "command")
    else []

unfoldable pub pi_result : Value → List Action
pi_result item =
    if has_text "type" "toolResult" item then cancel_by (get_str "toolCallId" item) else []

unfoldable pub pi_item : Value → List Action
unfolding pi_start pi_result
pi_item item = if is_object item then pi_start item ++ pi_result item else []

-- `toolResult` as the role of the message.
unfoldable pub pi_role : Value → List Action
pi_role message =
    if has_text "role" "toolResult" message then cancel_by (get_str "toolCallId" message) else []

pi_message : Option Value → Option Value → List Action
unfolding pi_items pi_item pi_role
pi_message none content = []
pi_message (some message) none = []
pi_message (some message) (some content) = flat_map pi_item (pi_items content) ++ pi_role message

-- `parse_pi_format`.
unfoldable pub parse_pi_format : Value → List Action
unfolding pi_message
parse_pi_format root =
    if has_text "type" "message" root
    then pi_message (get "message" root) (get "message" root >>= get "content")
    else []

-- `parse_pi_tool_execution_events`.
unfoldable pub parse_pi_tool_execution_events : Value → List Action
parse_pi_tool_execution_events root =
    (if has_text "type" "tool_execution_start" root && is_bash "toolName" root
      then start_with (get_str "toolCallId" root) (get "args" root >>= get_str "command")
      else [])
    ++ (if has_text "type" "tool_execution_end" root && is_bash "toolName" root
        then Action.cancel_oldest ∷ []
        else [])

-- The three formats, one after another.
unfoldable pub actions_of : Value → List Action
unfolding parse_claude_format parse_pi_format parse_pi_tool_execution_events
actions_of root =
    parse_claude_format root ++ parse_pi_format root ++ parse_pi_tool_execution_events root

-- The actions as they come; `none` is a panic of the watchdog.
unfoldable pub run : (clock : ℕ → ℕ) → ℕ → List Action → List Timer → Option (List Timer)
run clock i [] timers = some timers
run clock i (action ∷ actions) timers = apply (clock i) action timers >>= run clock (suc i) actions

unfoldable pub parsed_actions : Option Value → List Action
unfolding actions_of
parsed_actions none = []
parsed_actions (some root) = actions_of root

-- `accept` with a watchdog: the line that goes downstream, and the timers.
unfoldable pub accept :
    (parse : String → Option Value) (clock : ℕ → ℕ)
    → String
    → List Timer
    → String × Option (List Timer)
unfolding run parsed_actions
accept parse clock line timers =
    let trimmed = trim line in
    (
      line,
      if is_empty trimmed || not (starts_with_brace trimmed)
          then some timers
          else run clock 0 (parsed_actions (parse trimmed)) timers,
    )
