-- ===== src/StreamParser/Timing.antt =====
-- The timers that lists of calls and of results leave, and a line that is parsed
-- (crates/benchmark-core/src/docker/stream_parser.rs).
use mathlib.Core.List.{append-nil, append_assoc}
use llm_benchmark.Common.{
  ℕ, suc, true, false, String, ◌≡◌, refl, sym, ap, ◌∙◌, List, [], ◌∷◌, ◌++◌, Option, some, not,
  ◌||◌, All, map, length, str_eq_self,
}
use llm_benchmark.Text.{trim, is_empty, starts_with_brace}
use llm_benchmark.Json.{Value}
use llm_benchmark.Watchdog.{
  Timer, original, on_tool_call_started, has_id, position, cancel_timer, cancel_position,
}
use llm_benchmark.Watchdog.Timers.{remove_at-append}
use llm_benchmark.Watchdog.Detect.{Action}
use llm_benchmark.Watchdog.Lines.{apply}
use llm_benchmark.StreamParser.{actions_of, run, parsed_actions, accept}

-- A call is its id and its command.
abbrev pub Calls : Type 0
Calls = List (String × String)

abbrev pub starts : Calls → List Action
starts calls = map (λ c. Action.start (some c.0) c.1) calls

abbrev pub results : Calls → List Action
results calls = map (λ c. Action.cancel c.0) calls

-- The timers of the calls, each with the time at which it was started.
abbrev pub timers_of : (ℕ → ℕ) → ℕ → Calls → List Timer
timers_of clock i [] = []
timers_of clock i (c ∷ calls) =
    record { id = some c.0; command = original c.1; started = clock i }
    ∷ timers_of clock (suc i) calls

-- No timer has the id.
abbrev pub Unused : List Timer → String → Type 0
Unused ts id = All (λ t. has_id id t.id ≡ false) ts

pub run-starts :
    (clock : ℕ → ℕ) (i : ℕ) (calls : Calls) (ts : List Timer)
    → run clock i (starts calls) ts ≡ some (ts ++ timers_of clock i calls)
unfolding run apply on_tool_call_started
run-starts clock i [] ts = ap some (sym (append-nil ts))
run-starts clock i (c ∷ calls) ts =
    let t : Timer = record { id = some c.0; command = original c.1; started = clock i } in
    run-starts clock (suc i) calls (ts ++ t ∷ [])
    ∙ ap some (append_assoc ts (t ∷ []) (timers_of clock (suc i) calls))

position-after :
    (id : String) (t : Timer) (ts us : List Timer)
    → Unused ts id
    → has_id id t.id ≡ true
    → position id (ts ++ t ∷ us) ≡ some (length ts)
unfolding position
position-after id t [] us h own = rw own refl
position-after id t (x ∷ xs) us h own = rw (h.0, position-after id t xs us h.1 own) refl

cancel_timer-after :
    (id : String) (t : Timer) (ts us : List Timer)
    → Unused ts id
    → has_id id t.id ≡ true
    → cancel_timer id (ts ++ t ∷ us) ≡ some (true, ts ++ us)
unfolding cancel_timer cancel_position
cancel_timer-after id t ts us h own =
    rw (position-after id t ts us h own, cancel_position, remove_at-append ts t us) refl

pub run-results :
    (clock started : ℕ → ℕ) (j i : ℕ) (calls : Calls) (ts : List Timer)
    → All (λ c. Unused ts c.0) calls
    → run clock j (results calls) (ts ++ timers_of started i calls) ≡ some ts
unfolding run apply
run-results clock started j i [] ts h = ap some (append-nil ts)
run-results clock started j i (c ∷ calls) ts h =
    rw
      (
        run,
        cancel_timer-after c.0
            (record { id = some c.0; command = original c.1; started = started i }) ts
            (timers_of started (suc i) calls) h.0 (str_eq_self c.0),
      )
      (run-results clock started (suc j) (suc i) calls ts h.1)

-- A line that begins with a brace and is parsed.
pub record Parsed (parse : String → Option Value) (line : String) (root : Value) : Type 0 where
  pub json : is_empty (trim line) || not (starts_with_brace (trim line)) ≡ false
  pub parsed : parse (trim line) ≡ some root

pub accept-Parsed :
    (parse : String → Option Value) (clock : ℕ → ℕ) (line : String) (root : Value) (ts : List Timer)
    → Parsed parse line root
    → accept parse clock line ts ≡ (line, run clock 0 (actions_of root) ts)
unfolding accept parsed_actions
accept-Parsed parse clock line root ts p = rw (p.json, p.parsed) refl
