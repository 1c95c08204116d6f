-- ===== src/ModelLoad.antt =====
-- What crates/benchmark-core/src/model_load.rs reads out of the answers of a model server. The bodies
-- are JSON values; the parsing of a URL is the `url` crate's and a parameter.
pub mod Gate
pub mod Probing
pub mod Waiting
pub mod Outcomes
pub mod Tests
use llm_benchmark.Common.{
  ℕ, Bool, true, false, String, List, [], ◌∷◌, ◌++◌, Option, none, some, if◌then◌else◌, any, str_eq,
}
use llm_benchmark.Json.{Value, get, as_str, as_array, get_str, has_text, ◌>>=◌}
use llm_benchmark.Text.{str_append}

pub data LoadState : Type 0 where
  ready : LoadState
  loaded : LoadState
  starting : LoadState
  not_loaded : LoadState
  remote : LoadState
  unknown : LoadState

-- A duration is in nanoseconds.
pub data Outcome : Type 0 where
  skipped : String → Outcome
  already_loaded : Outcome
  loaded_after : ℕ → Outcome
  gave_up_after : ℕ → Outcome

abbrev pub status_loaded : String
status_loaded = "loaded"

abbrev pub state_ready : String
state_ready = "ready"

abbrev pub kind_peer : String
kind_peer = "peer"

-- `Iterator::find`.
module _ {ℓ} {A : Type ℓ} where
  abbrev pub find : (A → Bool) → List A → Option A
  find test [] = none
  find test (x ∷ xs) = if test x then some x else find test xs

-- Follows the keys to a value, and to a text.
unfoldable pub nested : Value → List String → Option Value
unfolding get
nested value [] = some value
nested value (key ∷ path) = get key value >>= (λ v. nested v path)

unfoldable pub nested_str : Value → List String → Option String
unfolding nested as_str
nested_str value path = nested value path >>= as_str

-- The records of a listing, and the one of a model.
unfoldable pub record_of : Value → String → Option Value
unfolding get as_array has_text
record_of models model = do
  data_field ← get "data" models
  records ← as_array data_field
  find (has_text "id" model) records

-- The last match of `classify`.
unfoldable pub classify_status : Option String → LoadState
classify_status none = unknown
classify_status (some s) = if str_eq s status_loaded then loaded else not_loaded

abbrev pub is_peer : Option String → Bool
is_peer none = false
is_peer (some k) = str_eq k kind_peer

unfoldable pub classify : Value → String → LoadState
unfolding record_of nested_str classify_status
classify models model = elim (record_of models model) [
  | none ↦ unknown
  | some r ↦
      if is_peer (nested_str r ("meta" ∷ "llamaswap" ∷ "type" ∷ []))
      then remote
      else classify_status (nested_str r ("status" ∷ "value" ∷ []))
]

abbrev pub one_or_none : Option String → List String
one_or_none none = []
one_or_none (some s) = s ∷ []

-- `filter_map(Value::as_str)`.
unfoldable pub strings_of : List Value → List String
unfolding as_str
strings_of [] = []
strings_of (v ∷ vs) = one_or_none (as_str v) ++ strings_of vs

abbrev pub texts_or_none : Option (List Value) → List String
unfolding strings_of
texts_or_none none = []
texts_or_none (some vs) = strings_of vs

unfoldable pub serving_ids : Value → String → List String
unfolding record_of nested_str nested as_array strings_of
serving_ids models model = elim (record_of models model) [
  | none ↦ model ∷ []
  | some r ↦
      model
      ∷ (one_or_none (nested_str r ("meta" ∷ "llamaswap" ∷ "modelID" ∷ []))
          ++ texts_or_none (nested r ("meta" ∷ "llamaswap" ∷ "targets" ∷ []) >>= as_array))
]

-- An entry of `/running` names one of the ids.
unfoldable pub names_any : List String → Value → Bool
unfolding get_str
names_any ids entry = elim (get_str "model" entry) [
  | none ↦ false
  | some name ↦ any (λ id. str_eq id name) ids
]

unfoldable pub running_state : Option Value → List String → Option String
unfolding get as_array names_any get_str
running_state running ids = do
  body ← running
  entries_field ← get "running" body
  entries ← as_array entries_field
  entry ← find (names_any ids) entries
  get_str "state" entry

-- What the `url` crate says of an endpoint that it can parse; the port is written out.
pub record Url : Type 0 where
  pub scheme : String
  pub host : Option String
  pub port : Option String

abbrev or_empty : Option String → String
or_empty none = ""
or_empty (some s) = s

abbrev port_text : Option String → String
unfolding str_append
port_text none = ""
port_text (some p) = str_append ":" p

unfoldable pub server_root : (String → Option Url) → String → String
unfolding str_append
server_root parse_url endpoint = elim (parse_url endpoint) [
  | none ↦ endpoint
  | some u ↦
      str_append u.scheme (str_append "://" (str_append (or_empty u.host) (port_text u.port)))
]
