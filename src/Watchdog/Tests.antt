-- ===== src/Watchdog/Tests.antt =====
-- The command watchdog of crates/benchmark-core/src/docker/watchdog.rs at concrete timers and lines.
use llm_benchmark.Common.{String, ◌≡◌, [], ◌∷◌, some}
use llm_benchmark.Json.{Value, Values, array, object, string, nil, cons, end, field}
use llm_benchmark.Watchdog.{Timer, is_overdue, check_timeouts}
use llm_benchmark.Watchdog.Timers.{check_timeouts_exact}

abbrev build : Timer
build = record { id = some "t1"; command = "make"; started = 0 }

abbrev check : Timer
check = record { id = some "t2"; command = "make check"; started = 5000000000 }

check_timeouts_exact_example :
    check_timeouts 10 12000000000 (build ∷ check ∷ []) ≡ some ("make" ∷ [], check ∷ [])
unfolding is_overdue
check_timeouts_exact_example = check_timeouts_exact 10 12000000000 (build ∷ check ∷ [])

abbrev bash_use : String → String → Value
bash_use id command = object (
    field "type" (string "tool_use") (
      field "id" (string id) (
        field "name" (string "Bash")
          (field "input" (object (field "command" (string command) end)) end))))

abbrev tool_result : String → Value
tool_result id = object (field "type" (string "tool_result") (field "tool_use_id" (string id) end))

abbrev message_of : String → Values → Value
message_of kind items =
    object (
      field "type" (string kind) (field "message" (object (field "content" (array items) end)) end))

abbrev two_calls : Value
two_calls = message_of "assistant" (cons (bash_use "t1" "make") (cons (bash_use "t2" "ls") nil))

abbrev two_results : Value
two_results = message_of "user" (cons (tool_result "t1") (cons (tool_result "t2") nil))

abbrev read_end : Value
read_end = object (
    field "type" (string "tool_execution_end")
      (field "toolName" (string "Read") (field "toolCallId" (string "t9") end)))
