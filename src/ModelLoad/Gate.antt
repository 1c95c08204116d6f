-- ===== src/ModelLoad/Gate.antt =====
-- The model-load gate of crates/benchmark-core/src/model_load.rs. A request takes time: it is sent at
-- one time and has its answer at another. Times are nanoseconds; the gate starts when it has its lock.
use llm_benchmark.Common.{
  ℕ, zero, suc, ◌+◌, ◌-◌, ◌*◌, Bool, true, false, ◌&&◌, String, List, [], ◌∷◌, Option, none, some,
  if◌then◌else◌, leb, ltb, str_eq, ◌≤◌, ◌||◌,
}
use llm_benchmark.Json.{Value, object, field, end, string, array, number, boolean, cons, nil}
use llm_benchmark.Text.{str_append, is_empty, trim}
use llm_benchmark.ModelLoad.{
  LoadState, ready, loaded, starting, remote, unknown, Outcome, skipped, already_loaded,
  loaded_after, gave_up_after, state_ready, classify, serving_ids, running_state, Url, server_root,
}

-- What a request ends with: an answer with its status and, if it parses, its body, or no answer.
pub data Sent : Type 0 where
  answered : ℕ → Option Value → Sent
  failed : Sent

-- The client of `reqwest` and the clock of the runtime. A request is sent with the key at a time, and
-- its result is there at a later one; a sleep lasts at least as long as asked for.
pub record Network : Type 0 where
  pub send : Option String → String → ℕ → Sent × ℕ
  pub send_after : (key : Option String) (url : String) (t : ℕ) → t ≤ (send key url t).1
  pub sleep : ℕ → ℕ → ℕ
  pub sleep_after : (t d : ℕ) → t + d ≤ sleep t d

-- The configured gate; `timeout` and `poll` in nanoseconds.
pub record Gate : Type 0 where
  pub endpoint : Option String
  pub api_key : Option String
  pub timeout : ℕ
  pub poll : ℕ

abbrev pub poll_interval : ℕ
poll_interval = 2000000000

abbrev is_slashes : String → Bool
is_slashes String.[] = true
is_slashes (String.◌∷◌ c s) = str_eq (String.◌∷◌ c String.[]) "/" && is_slashes s

-- `trim_end_matches('/')`.
unfoldable pub trim_slashes : String → String
trim_slashes String.[] = String.[]
trim_slashes (String.◌∷◌ c s) =
    if is_slashes (String.◌∷◌ c s) then String.[] else String.◌∷◌ c (trim_slashes s)

abbrev trimmed : Option String → Option String
unfolding trim_slashes
trimmed none = none
trimmed (some e) = some (trim_slashes e)

-- `from_config`, of the three settings it reads.
unfoldable pub from_config : Option String → Option String → ℕ → Gate
unfolding trim_slashes
from_config inference_endpoint key model_load_timeout_secs = record {
  endpoint = trimmed inference_endpoint;
  api_key = key;
  timeout = model_load_timeout_secs * 1000000000;
  poll = poll_interval;
}

-- `filter(|key| !key.is_empty())`.
unfoldable pub bearer : Option String → Option String
unfolding is_empty
bearer none = none
bearer (some key) = if is_empty key then none else some key

abbrev is_success : ℕ → Bool
is_success status = leb 200 status && ltb status 300

-- The body of an answer, in `get_json`.
unfoldable pub body_of : Sent → Option Value
body_of failed = none
body_of (answered status body) = if is_success status then body else none

-- The request of `warm_up`.
pub record Post : Type 0 where
  pub url : String
  pub body : Value
  pub key : Option String

unfoldable pub warm_up : Gate → String → List Post
unfolding str_append bearer
warm_up gate model = elim gate.endpoint [
  | none ↦ []
  | some endpoint ↦
      record {
        url = str_append endpoint "/chat/completions";
        body = object (
            field "model" (string model) (
              field "messages"
                (array (
                  cons (object (field "role" (string "user") (field "content" (string "ping") end)))
                    nil))
                (field "max_tokens" (number "1") (field "stream" (boolean false) end))));
        key = bearer gate.api_key;
      }
      ∷ []
]

abbrev pub is_ready : LoadState → Bool
is_ready ready = true
is_ready _ = false

-- Only a state other than `ready` holds the exercise back.
unfoldable pub settle_running : Option String → LoadState
settle_running none = ready
settle_running (some s) = if str_eq s state_ready then ready else starting

module _ (network : Network) (parse_url : String → Option Url) (gate : Gate) where
  -- `get_json`, with the time at which it returns.
  unfoldable pub get_json : String → ℕ → Option Value × ℕ
  unfolding body_of bearer
  get_json url t = let sent = network.send (bearer gate.api_key) url t in (body_of sent.0, sent.1)

  -- The part of `probe` after the model list.
  unfoldable pub probe_listed : String → String → Value → LoadState → ℕ → LoadState × ℕ
  unfolding get_json server_root running_state serving_ids settle_running str_append
  probe_listed endpoint model models loaded t =
      let running = get_json (str_append (server_root parse_url endpoint) "/running") t in
      (settle_running (running_state running.0 (serving_ids models model)), running.1)
  probe_listed endpoint model models other t = (other, t)

  -- `probe`.
  unfoldable pub probe : String → String → ℕ → LoadState × ℕ
  unfolding get_json classify probe_listed str_append
  probe endpoint model t =
      let list = get_json (str_append endpoint "/models") t in
      elim list.0 [
        | none ↦ (unknown, list.1)
        | some models ↦ probe_listed endpoint model models (classify models model) list.1
      ]

  -- The waiting loop, on fuel, at a time; with the outcome the time at which it ends.
  unfoldable pub wait_ready : ℕ → String → String → ℕ → ℕ → Option (Outcome × ℕ)
  unfolding probe
  wait_ready zero endpoint model started t = none
  wait_ready (suc fuel) endpoint model started t =
      let seen = probe endpoint model t in
      let rest = wait_ready fuel endpoint model started (network.sleep seen.1 gate.poll) in
      if is_ready seen.0
      then some (loaded_after (seen.1 - started), seen.1)
      else if leb gate.timeout (seen.1 - started)
      then some (gave_up_after (seen.1 - started), seen.1)
      else rest

  -- What a call leaves: its outcome, the warm-up requests that it spawned and the time.
  abbrev pub Left : Type 0
  Left = Outcome × List Post × ℕ

  abbrev pub with_posts : List Post → Option (Outcome × ℕ) → Option Left
  with_posts posts none = none
  with_posts posts (some (o, t)) = some (o, posts, t)

  -- The part of `ensure_ready` after the first probe.
  unfoldable pub act_on : ℕ → String → String → LoadState → ℕ → Option Left
  unfolding wait_ready warm_up
  act_on fuel endpoint model ready t = some (already_loaded, [], t)
  act_on fuel endpoint model remote t =
      some (skipped "the model is served by a peer, not loaded here", [], t)
  act_on fuel endpoint model unknown t =
      some (skipped "the endpoint does not report model load state", [], t)
  act_on fuel endpoint model _ t =
      with_posts (warm_up gate model) (wait_ready fuel endpoint model t t)

  abbrev pub no_served_model : String → Bool
  unfolding trim is_empty
  no_served_model model = is_empty (trim model) || str_eq model "reference"

  -- `ensure_ready`.
  unfoldable pub ensure_ready : ℕ → String → ℕ → Option Left
  unfolding probe act_on trim is_empty
  ensure_ready fuel model t = elim gate.endpoint [
    | none ↦ some (skipped "no inference endpoint is configured", [], t)
    | some endpoint ↦
        if no_served_model model
        then some (skipped "the reference agent does not run a served model", [], t)
        else (let first = probe endpoint model t in act_on fuel endpoint model first.0 first.1)
  ]
