-- ===== src/ModelLoad/Tests.antt =====
-- The model-load gate of crates/benchmark-core/src/model_load.rs with a concrete server.
use llm_benchmark.Common.{
  ◌+◌, true, String, Option, none, some, ◌≡◌, refl, arith, ltb, if◌then◌else◌, str_eq,
}
use llm_benchmark.Json.{Value, object, field, end, string, array, cons, nil}
use llm_benchmark.Text.{str_append}
use llm_benchmark.ModelLoad.{Url}
use llm_benchmark.ModelLoad.Gate.{Network, answered, Gate, probe}
use llm_benchmark.ModelLoad.Probing.{is_starting}

abbrev listing : Value
listing = object (
    field "data"
      (array (
        cons
          (object (
            field "id" (string "clef")
              (field "status" (object (field "value" (string "loaded") end)) end)))
          nil))
      end)

abbrev running : String → Value
running state = object (
    field "running"
      (array (cons (object (field "model" (string "clef") (field "state" (string state) end))) nil))
      end)

-- The upstream is ready from 3 s on.
abbrev swapping : Network
swapping = record {
  send = λ key url t. (
    answered 200 (
        some (
          if str_eq url "http://swap/v1/models"
          then listing
          else running (if ltb t 3000000000 then "starting" else "ready"))),
    t + 1,
  );
  send_after = λ key url t. omega arith;
  sleep = λ t d. t + d;
  sleep_after = λ t d. omega arith;
}

abbrev swap_url : String → Option Url
swap_url endpoint = some (record { scheme = "http"; host = some "swap"; port = none })

abbrev gate : Gate
gate = record {
  endpoint = some "http://swap/v1";
  api_key = none;
  timeout = 5000000000;
  poll = 2000000000;
}

probe_at_start : is_starting (probe swapping swap_url gate "http://swap/v1" "clef" 0).0 ≡ true
unfolding probe str_append
probe_at_start = refl
