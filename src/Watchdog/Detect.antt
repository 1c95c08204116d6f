-- ===== src/Watchdog/Detect.antt =====
-- The detection of tool calls and of their results in one line of output: `extract_bash_call`,
-- `extract_tool_result_id`, `is_tool_result` and `forward_line` of
-- crates/benchmark-core/src/docker/watchdog.rs. serde's parser is a parameter.
use llm_benchmark.Common.{
  Bool, true, false, String, List, [], ◌∷◌, Option, none, some, if◌then◌else◌, not, ◌&&◌, ◌||◌, any,
}
use llm_benchmark.Text.{trim, is_empty, starts_with_brace, eq_ignore_ascii_case}
use llm_benchmark.Json.{Value, get, get_str, as_array, has_text, ◌>>=◌}

-- `a.or_else(|| b)`.
abbrev pub or_else {ℓ} : {A : Type ℓ} → Option A → Option A → Option A
or_else (some a) b = some a
or_else none b = b

-- The first item on which `f` gives a value.
unfoldable pub find_map {ℓ} : {A : Type ℓ} → (Value → Option A) → List Value → Option A
find_map f [] = none
find_map f (v ∷ vs) = or_else (f v) (find_map f vs)

-- `get(key).map(|n| n.eq_ignore_ascii_case("bash")).unwrap_or(false)`.
unfoldable pub is_bash : String → Value → Bool
is_bash key v = elim (get_str key v) [ none ↦ false | some n ↦ eq_ignore_ascii_case n "bash" ]

-- The `content` array of the `message`, if there is one.
unfoldable pub content_items : Value → Option (List Value)
content_items root = do
  message ← get "message" root
  content ← get "content" message
  as_array content

abbrev pub items_or_none : Option (List Value) → List Value
items_or_none none = []
items_or_none (some vs) = vs

-- `extract_command_from_tool_use` and `extract_command_from_tool_call`.
unfoldable pub extract_command_from_tool_use : Value → Option String
extract_command_from_tool_use node = do
  input ← or_else (get "input" node) (get "arguments" node)
  get_str "command" input

unfoldable pub extract_command_from_tool_call : Value → Option String
extract_command_from_tool_call node = do args ← get "arguments" node; get_str "command" args

-- The bodies of the loops over the items, in Claude's format and in pi's.
unfoldable pub claude_call : Value → Option (Option String × String)
claude_call item =
    if has_text "type" "tool_use" item && has_text "name" "Bash" item
    then (do command ← extract_command_from_tool_use item; some (get_str "id" item, command))
    else none

unfoldable pub pi_call : Value → Option (Option String × String)
pi_call item =
    if has_text "type" "toolCall" item && is_bash "name" item
    then (do command ← extract_command_from_tool_call item; some (get_str "id" item, command))
    else none

-- `tool_execution_start` at the top level.
unfoldable pub pi_execution_start : Value → Option (Option String × String)
pi_execution_start root =
    if has_text "type" "tool_execution_start" root && is_bash "toolName" root
    then (do
      args ← get "args" root
      command ← get_str "command" args
      some (get_str "toolCallId" root, command))
    else none

-- `extract_bash_call` on a parsed line: Claude's items, then pi's, then pi's event.
unfoldable pub extract_bash_call : Value → Option (Option String × String)
extract_bash_call root = or_else (find_map claude_call (items_or_none (content_items root))) (
    or_else
      (if has_text "type" "message" root
        then find_map pi_call (items_or_none (content_items root))
        else none)
      (pi_execution_start root))

unfoldable pub claude_result_id : Value → Option String
claude_result_id item =
    if has_text "type" "tool_result" item then get_str "tool_use_id" item else none

unfoldable pub pi_result_id : Value → Option String
pi_result_id item = if has_text "type" "toolResult" item then get_str "toolCallId" item else none

-- `extract_tool_result_id` on a parsed line.
unfoldable pub extract_tool_result_id : Value → Option String
extract_tool_result_id root =
    or_else
      (if has_text "type" "user" root
        then find_map claude_result_id (items_or_none (content_items root))
        else none)
      (if has_text "type" "message" root
        then (do
          message ← get "message" root
          or_else (get_str "toolCallId" message)
              (find_map pi_result_id (items_or_none (content_items root))))
        else none)

abbrev pub is_some_message : Value → Bool
is_some_message root = elim (get "message" root) [
  | none ↦ false
  | some m ↦ has_text "role" "toolResult" m
]

-- `is_tool_result` on a parsed line. The array of a user message decides alone; so does that of a
-- pi message whose role is another.
unfoldable pub is_tool_result : Value → Bool
is_tool_result root = elim (if has_text "type" "user" root then content_items root else none) [
  | some items ↦ any (has_text "type" "tool_result") items
  | none ↦
      has_text "type" "tool_execution_end" root
      || (has_text "type" "message" root
          && (is_some_message root
              || any (has_text "type" "toolResult") (items_or_none (content_items root))))
]

-- What a line asks of the watchdog. Each is done by a task of its own, which may run at any time.
pub data Action : Type 0 where
  start : Option String → String → Action
  cancel : String → Action
  cancel_oldest : Action

-- The three tests of `forward_line`, in their order.
abbrev pub choose : Option (Option String × String) → Option String → Bool → Option Action
choose (some (id, command)) result finished = some (Action.start id command)
choose none (some id) finished = some (Action.cancel id)
choose none none true = some Action.cancel_oldest
choose none none false = none

-- They are made of a parsed line.
unfoldable pub detect : Value → Option Action
detect root = choose (extract_bash_call root) (extract_tool_result_id root) (is_tool_result root)

-- `forward_line`: only a line that begins with a brace and parses is looked into. The helpers trim
-- the line once more.
unfoldable pub forward_line : (parse : String → Option Value) → String → Option Action
forward_line parse line =
    let trimmed = trim line in
    if is_empty trimmed || not (starts_with_brace trimmed)
    then none
    else if not (starts_with_brace (trim trimmed))
    then none
    else parse (trim trimmed) >>= detect
