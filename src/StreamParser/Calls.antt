-- ===== src/StreamParser/Calls.antt =====
-- Which timers the lines of crates/benchmark-core/src/docker/stream_parser.rs leave: several calls in
-- one message, their results, and the events of other tools.
use mathlib.Core.List.{append-nil}
use llm_benchmark.Common.{
  ℕ, Bool, true, false, String, ◌≡◌, refl, ap, ◌∙◌, List, [], ◌∷◌, ◌++◌, Option, some, ◌&&◌, All,
  str_eq, ◌⊎◌, inl, inr, subst,
}
use llm_benchmark.Json.{Value, get, get_str, as_array, has_text, is_text, ◌>>=◌}
use llm_benchmark.Watchdog.{Timer}
use llm_benchmark.Watchdog.Detect.{content_items, is_bash}
use llm_benchmark.Watchdog.Lines.{has_text-eq}
use llm_benchmark.StreamParser.{
  flat_map, claude_start, claude_result, extract_command, parse_claude_format, parse_pi_format,
  parse_pi_tool_execution_events, actions_of, run, accept,
}
use llm_benchmark.StreamParser.Timing.{
  Calls, starts, results, timers_of, Unused, Parsed, run-starts, run-results, accept-Parsed,
}

-- The items of an assistant message ask for the calls: each is a `tool_use` of `Bash` with an id and
-- a command, or is of another type, or is of another tool.
pub data Asks : List Value → Calls → Type 0 where
  no_items : Asks [] []
  call :
      {v input : Value} {id command : String} {items : List Value} {calls : Calls}
      → has_text "type" "tool_use" v ≡ true
      → has_text "name" "Bash" v ≡ true
      → get_str "id" v ≡ some id
      → get "input" v ≡ some input
      → get_str "command" input ≡ some command
      → Asks items calls
      → Asks (v ∷ items) ((id, command) ∷ calls)
  other_type :
      {v : Value} {items : List Value} {calls : Calls}
      → has_text "type" "tool_use" v ≡ false
      → Asks items calls
      → Asks (v ∷ items) calls
  other_tool :
      {v : Value} {items : List Value} {calls : Calls}
      → has_text "name" "Bash" v ≡ false
      → Asks items calls
      → Asks (v ∷ items) calls

-- The items of a user message answer the calls: each is a `tool_result` of the next call, or is of
-- another type.
pub data Answers : List Value → Calls → Type 0 where
  no_answers : Answers [] []
  result :
      {v : Value} {id command : String} {items : List Value} {calls : Calls}
      → has_text "type" "tool_result" v ≡ true
      → get_str "tool_use_id" v ≡ some id
      → Answers items calls
      → Answers (v ∷ items) ((id, command) ∷ calls)
  other_type :
      {v : Value} {items : List Value} {calls : Calls}
      → has_text "type" "tool_result" v ≡ false
      → Answers items calls
      → Answers (v ∷ items) calls

-- The message has the content.
pub record HasContent (kind : String) (root : Value) (items : List Value) : Type 0 where
  pub typed : has_text "type" kind root ≡ true
  pub content : (get "message" root >>= λ message. get "content" message >>= as_array) ≡ some items

and-false : (b : Bool) → b && false ≡ false
and-false true = refl
and-false false = refl

content_items-HasContent :
    (kind : String) (root : Value) (items : List Value)
    → HasContent kind root items
    → content_items root ≡ some items
unfolding content_items
content_items-HasContent kind root items h = h.content

starts-Asks :
    {items : List Value} {calls : Calls}
    → Asks items calls
    → flat_map claude_start items ≡ starts calls
unfolding flat_map claude_start extract_command
starts-Asks no_items = refl
starts-Asks (call typed named id input command rest) =
    rw (typed, named, id, input, starts-Asks rest) (rw command refl)
starts-Asks (other_type typed rest) = rw typed (starts-Asks rest)
starts-Asks (other_tool named rest) = rw (named, and-false) (starts-Asks rest)

results-Answers :
    {items : List Value} {calls : Calls}
    → Answers items calls
    → flat_map claude_result items ≡ results calls
unfolding flat_map claude_result
results-Answers no_answers = refl
results-Answers (result typed id rest) = rw (typed, id, results-Answers rest) refl
results-Answers (other_type typed rest) = rw typed (results-Answers rest)

-- A text under a key is not another one.
has_text-other :
    (k t u : String) (v : Value)
    → has_text k t v ≡ true
    → str_eq t u ≡ false
    → has_text k u v ≡ false
unfolding has_text
has_text-other k t u v h ne = ap (λ o. is_text o u) (has_text-eq k t v h) ∙ ne

actions-Asks :
    (root : Value) (items : List Value) (calls : Calls)
    → HasContent "assistant" root items
    → Asks items calls
    → actions_of root ≡ starts calls
unfolding actions_of parse_claude_format parse_pi_format parse_pi_tool_execution_events
actions-Asks root items calls h asks =
    let other : (u : String) → str_eq "assistant" u ≡ false → has_text "type" u root ≡ false =
      λ u. has_text-other "type" "assistant" u root h.typed in
    simp (
      h.typed,
      other "user" refl,
      other "message" refl,
      other "tool_execution_start" refl,
      other "tool_execution_end" refl,
      content_items-HasContent "assistant" root items h,
      starts-Asks asks,
      append-nil (starts calls),
    )

actions-Answers :
    (root : Value) (items : List Value) (calls : Calls)
    → HasContent "user" root items
    → Answers items calls
    → actions_of root ≡ results calls
unfolding actions_of parse_claude_format parse_pi_format parse_pi_tool_execution_events
actions-Answers root items calls h answers =
    let other : (u : String) → str_eq "user" u ≡ false → has_text "type" u root ≡ false =
      λ u. has_text-other "type" "user" u root h.typed in
    simp (
      h.typed,
      other "assistant" refl,
      other "message" refl,
      other "tool_execution_start" refl,
      other "tool_execution_end" refl,
      content_items-HasContent "user" root items h,
      results-Answers answers,
      append-nil (results calls),
    )

-- All Bash calls of an assistant message, each of which has an id and a command as its input, among
-- items of other kinds or tools, get timers, in their order; a user message whose results are
-- theirs, in the same order, removes exactly these, if no older timer has one of their ids. Both
-- lines go downstream as they are.
pub calls_then_results :
    (parse : String → Option Value) (clock later : ℕ → ℕ) (line line' : String) (root root' : Value)
    (items items' : List Value) (calls : Calls) (ts : List Timer)
    → Parsed parse line root
    → HasContent "assistant" root items
    → Asks items calls
    → Parsed parse line' root'
    → HasContent "user" root' items'
    → Answers items' calls
    → All (λ c. Unused ts c.0) calls
    → (accept parse clock line ts ≡ (line, some (ts ++ timers_of clock 0 calls)))
      × (accept parse later line' (ts ++ timers_of clock 0 calls) ≡ (line', some ts))
calls_then_results parse clock later line line' root root' items items' calls ts p h asks p' h'
      answers unused =
    (
      accept-Parsed parse clock line root ts p
          ∙ ap (λ r. (line, r))
              (ap (λ asked. run clock 0 asked ts) (actions-Asks root items calls h asks)
                ∙ run-starts clock 0 calls ts),
      accept-Parsed parse later line' root' (ts ++ timers_of clock 0 calls) p'
          ∙ ap (λ r. (line', r))
              (ap (λ asked. run later 0 asked (ts ++ timers_of clock 0 calls))
                  (actions-Answers root' items' calls h' answers)
                ∙ run-results later clock 0 0 calls ts unused),
    )

actions-other_tool :
    (kind : String) (root : Value)
    → str_eq kind "assistant" ≡ false
    → str_eq kind "user" ≡ false
    → str_eq kind "message" ≡ false
    → has_text "type" kind root ≡ true
    → is_bash "toolName" root ≡ false
    → actions_of root ≡ []
unfolding actions_of parse_claude_format parse_pi_format parse_pi_tool_execution_events
actions-other_tool kind root not_claude not_user not_message h tool = simp (
  has_text-other "type" kind "assistant" root h not_claude,
  has_text-other "type" kind "user" root h not_user,
  has_text-other "type" kind "message" root h not_message,
  tool,
  and-false,
)

-- The events of pi for a tool other than Bash leave the timers as they are.
pub other_tool_ignored :
    (parse : String → Option Value) (clock : ℕ → ℕ) (line kind : String) (root : Value)
    (ts : List Timer)
    → Parsed parse line root
    → (kind ≡ "tool_execution_start") ⊎ (kind ≡ "tool_execution_end")
    → has_text "type" kind root ≡ true
    → is_bash "toolName" root ≡ false
    → accept parse clock line ts ≡ (line, some ts)
unfolding run
other_tool_ignored parse clock line kind root ts p which h tool =
    accept-Parsed parse clock line root ts p
    ∙ ap (λ asked. (line, run clock 0 asked ts))
        (elim which [
          | inl e ↦
              actions-other_tool "tool_execution_start" root refl refl refl
                (subst (λ t. has_text "type" t root ≡ true) e h) tool
          | inr e ↦
              actions-other_tool "tool_execution_end" root refl refl refl
                (subst (λ t. has_text "type" t root ≡ true) e h) tool
        ])
