-- ===== src/StreamParser/Tests.antt =====
-- The stream parser of crates/benchmark-core/src/docker/stream_parser.rs at concrete lines.
use llm_benchmark.Common.{
  ◌+◌, String, ◌≡◌, refl, [], ◌∷◌, ◌++◌, Option, none, some, if◌then◌else◌, str_eq,
}
use llm_benchmark.Json.{
  Value, Values, array, object, string, nil, cons, end, field, as_array, has_text,
}
use llm_benchmark.Text.{trim, is_empty, starts_with_brace}
use llm_benchmark.Watchdog.{Timer}
use llm_benchmark.StreamParser.{accept}
use llm_benchmark.StreamParser.Timing.{Calls, timers_of}
use llm_benchmark.StreamParser.Calls.{calls_then_results}
use llm_benchmark.StreamParser.Calls.Asks.{no_items, call, other_type, other_tool}
use llm_benchmark.StreamParser.Calls.Answers.{result, no_answers}

abbrev bash_use : String → String → Value
bash_use id command = object (
    field "type" (string "tool_use") (
      field "id" (string id) (
        field "name" (string "Bash")
          (field "input" (object (field "command" (string command) end)) end))))

abbrev read_use : Value
read_use = object (field "type" (string "tool_use") (field "name" (string "Read") end))

abbrev tool_result : String → Value
tool_result id = object (field "type" (string "tool_result") (field "tool_use_id" (string id) end))

abbrev message_of : String → Values → Value
message_of kind items =
    object (
      field "type" (string kind) (field "message" (object (field "content" (array items) end)) end))

abbrev asking : Value
asking = message_of "assistant" (
    cons (object (field "type" (string "text") end))
      (cons (bash_use "t1" "make") (cons read_use (cons (bash_use "t2" "ls") nil))))

abbrev answering : Value
answering = message_of "user" (cons (tool_result "t1") (cons (tool_result "t2") nil))

abbrev read_end : Value
read_end =
    object (field "type" (string "tool_execution_end") (field "toolName" (string "read") end))

-- Short lines stand for the three values.
abbrev parse : String → Option Value
parse text =
    if str_eq text "{a"
    then some asking
    else if str_eq text "{u"
    then some answering
    else if str_eq text "{e"
    then some read_end
    else none

abbrev older : Timer
older = record { id = some "t0"; command = "sleep"; started = 1 }

abbrev two_calls : Calls
two_calls = ("t1", "make") ∷ ("t2", "ls") ∷ []

calls_then_results_example :
    (accept parse (λ i. 10 + i) "{a" (older ∷ [])
      ≡ ("{a", some ((older ∷ []) ++ timers_of (λ i. 10 + i) 0 two_calls)))
    × (accept parse (λ i. 20 + i) "{u" ((older ∷ []) ++ timers_of (λ i. 10 + i) 0 two_calls)
        ≡ ("{u", some (older ∷ [])))
unfolding is_empty trim starts_with_brace has_text as_array
calls_then_results_example =
    calls_then_results parse (λ i. 10 + i) (λ i. 20 + i) "{a" "{u" asking answering _ _ two_calls
      (older ∷ []) (record { json = refl; parsed = refl }) (record { typed = refl; content = refl })
      (other_type refl
        (call refl refl refl refl refl (other_tool refl (call refl refl refl refl refl no_items))))
      (record { json = refl; parsed = refl }) (record { typed = refl; content = refl })
      (result refl refl (result refl refl no_answers)) ((refl, tt), ((refl, tt), tt))
