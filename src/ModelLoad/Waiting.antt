-- ===== src/ModelLoad/Waiting.antt =====
-- The end of the gate of crates/benchmark-core/src/model_load.rs: every call returns, and each outcome
-- has its reason.
use llm_benchmark.Common.{
  ℕ, zero, suc, ◌+◌, ◌-◌, ◌*◌, true, false, String, [], Option, none, some, leb, ◌≤◌, ◌<◌, ◌≡◌,
  refl, Bool-cases, Option-cases, ◌⊎◌, inl, inr, arith,
}
use llm_benchmark.Json.{Value}
use llm_benchmark.Text.{str_append}
use llm_benchmark.ModelLoad.{
  LoadState, ready, starting, not_loaded, remote, unknown, Outcome, skipped, already_loaded,
  loaded_after, gave_up_after, Url, classify,
}
use llm_benchmark.ModelLoad.Gate.{
  Network, Gate, warm_up, is_ready, get_json, probe, probe_listed, wait_ready, no_served_model,
  Left,
}

module _ (network : Network) (parse_url : String → Option Url) (gate : Gate) where
  open network use {sleep, sleep_after, send_after}

  abbrev pub seen_at : String → String → ℕ → LoadState × ℕ
  seen_at endpoint model t = probe network parse_url gate endpoint model t

  get_json-later : (url : String) (t : ℕ) → t ≤ (get_json network parse_url gate url t).1
  unfolding get_json
  get_json-later url t = send_after _ url t

  probe_listed-later :
      (endpoint model : String) (models : Value) (s : LoadState) (t : ℕ)
      → t ≤ (probe_listed network parse_url gate endpoint model models s t).1
  unfolding probe_listed
  probe_listed-later endpoint model models LoadState.loaded t = get_json-later _ t
  probe_listed-later endpoint model models LoadState.ready t = omega arith
  probe_listed-later endpoint model models LoadState.starting t = omega arith
  probe_listed-later endpoint model models LoadState.not_loaded t = omega arith
  probe_listed-later endpoint model models LoadState.remote t = omega arith
  probe_listed-later endpoint model models LoadState.unknown t = omega arith

  probe-later : (endpoint model : String) (t : ℕ) → t ≤ (seen_at endpoint model t).1
  unfolding probe
  probe-later endpoint model t =
      elim (Option-cases (get_json network parse_url gate (str_append endpoint "/models") t).0) [
        | inl e ↦ rw (probe, e) (get_json-later _ t)
        | inr (models, e) ↦
            rw (probe, e)
              (omega (
                arith,
                get_json-later (str_append endpoint "/models") t,
                probe_listed-later endpoint model models (classify models model)
                    (get_json network parse_url gate (str_append endpoint "/models") t).1,
              ))
      ]

  -- Why the loop that started at one time and stands at another ends: a probe says ready, or one that
  -- does not is over when the timeout is.
  pub data Ended : String → String → ℕ → ℕ → Outcome × ℕ → Type 0 where
    came_up :
        {endpoint model : String} {started t : ℕ} (u : ℕ)
        → t ≤ u
        → is_ready (seen_at endpoint model u).0 ≡ true
        → Ended endpoint model started t
            (loaded_after ((seen_at endpoint model u).1 - started), (seen_at endpoint model u).1)
    timed_out :
        {endpoint model : String} {started t : ℕ} (u : ℕ)
        → t ≤ u
        → is_ready (seen_at endpoint model u).0 ≡ false
        → gate.timeout ≤ (seen_at endpoint model u).1 - started
        → Ended endpoint model started t
            (gave_up_after ((seen_at endpoint model u).1 - started), (seen_at endpoint model u).1)

  Ended-earlier :
      (endpoint model : String) (started s t : ℕ) (o : Outcome × ℕ)
      → s ≤ t
      → Ended endpoint model started t o
      → Ended endpoint model started s o
  Ended-earlier endpoint model started s t _ le (Ended.came_up u at e) =
      Ended.came_up u (omega (arith, le, at)) e
  Ended-earlier endpoint model started s t _ le (Ended.timed_out u at e late) =
      Ended.timed_out u (omega (arith, le, at)) e late

  abbrev pub Returns : ℕ → String → String → ℕ → ℕ → Type 0
  Returns fuel endpoint model started t =
      (o : Outcome × ℕ) × (wait_ready network parse_url gate fuel endpoint model started t ≡ some o)
      × Ended endpoint model started t o

  -- One round, where what follows a round without an outcome returns.
  round-Returns :
      (fuel : ℕ) (endpoint model : String) (started t : ℕ)
      → ((seen_at endpoint model t).1 - started < gate.timeout
          → Returns fuel endpoint model started (sleep (seen_at endpoint model t).1 gate.poll))
      → Returns (suc fuel) endpoint model started t
  unfolding wait_ready
  round-Returns fuel endpoint model started t later =
      elim (Bool-cases (is_ready (seen_at endpoint model t).0)) [
        | inl e ↦ (_, rw (wait_ready, e) refl, Ended.came_up t (omega arith) e)
        | inr e ↦ elim (Bool-cases (leb gate.timeout ((seen_at endpoint model t).1 - started))) [
          | inl late ↦ (
            _,
            rw (wait_ready, e, late) refl,
            Ended.timed_out t (omega arith) e (ground (arith, late)),
          )
          | inr early ↦
              let (o, q, ended) = later (ground (arith, early)) in
              (
                o,
                rw (wait_ready, e, early) q,
                Ended-earlier endpoint model started t
                    (sleep (seen_at endpoint model t).1 gate.poll) o
                    (omega (
                      arith,
                      probe-later endpoint model t,
                      sleep_after (seen_at endpoint model t).1 gate.poll,
                    ))
                    ended,
              )
        ]
      ]

  -- `fuel` sleeps after the first probe reach the timeout.
  pub wait_ready-Returns :
      (fuel : ℕ) (endpoint model : String) (started t : ℕ)
      → started ≤ t
      → gate.timeout ≤ (t - started) + fuel * gate.poll
      → Returns (suc fuel) endpoint model started t
  wait_ready-Returns zero endpoint model started t le enough =
      round-Returns zero endpoint model started t
        (λ early. absurd (omega (arith, early, enough, le, probe-later endpoint model t)))
  wait_ready-Returns (suc fuel) endpoint model started t le enough =
      round-Returns (suc fuel) endpoint model started t (λ early.
        let later = probe-later endpoint model t in
        let slept = sleep_after (seen_at endpoint model t).1 gate.poll in
        wait_ready-Returns fuel endpoint model started
          (sleep (seen_at endpoint model t).1 gate.poll) (omega (arith, le, later, slept))
          (omega (arith, enough, le, later, slept)))

  -- What an outcome of the gate says. Without a warm-up request there was nothing to load, or nothing
  -- said; with one, the model was not up, and came up or was waited for until the timeout.
  pub data Justified : String → ℕ → Left network parse_url gate → Type 0 where
    unconfigured :
        {model : String} {t : ℕ}
        → gate.endpoint ≡ none
        → Justified model t (skipped "no inference endpoint is configured", [], t)
    unserved :
        {model : String} {t : ℕ}
        → no_served_model network parse_url gate model ≡ true
        → Justified model t (skipped "the reference agent does not run a served model", [], t)
    resident :
        {model : String} {t : ℕ} (endpoint : String)
        → gate.endpoint ≡ some endpoint
        → (seen_at endpoint model t).0 ≡ ready
        → Justified model t (already_loaded, [], (seen_at endpoint model t).1)
    peer :
        {model : String} {t : ℕ} (endpoint : String)
        → gate.endpoint ≡ some endpoint
        → (seen_at endpoint model t).0 ≡ remote
        → Justified model t (
          skipped "the model is served by a peer, not loaded here",
          [],
          (seen_at endpoint model t).1,
        )
    silent :
        {model : String} {t : ℕ} (endpoint : String)
        → gate.endpoint ≡ some endpoint
        → (seen_at endpoint model t).0 ≡ unknown
        → Justified model t (
          skipped "the endpoint does not report model load state",
          [],
          (seen_at endpoint model t).1,
        )
    waited :
        {model : String} {t : ℕ} (endpoint : String) (o : Outcome × ℕ)
        → gate.endpoint ≡ some endpoint
        → ((seen_at endpoint model t).0 ≡ starting) ⊎ ((seen_at endpoint model t).0 ≡ not_loaded)
        → Ended endpoint model (seen_at endpoint model t).1 (seen_at endpoint model t).1 o
        → Justified model t (o.0, warm_up gate model, o.1)
