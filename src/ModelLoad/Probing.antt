-- ===== src/ModelLoad/Probing.antt =====
-- What a probe of crates/benchmark-core/src/model_load.rs says.
use llm_benchmark.Common.{
  ℕ, Bool, true, false, String, [], ◌∷◌, Option, none, some, ◌≡◌, ◌≢◌, refl, Bool-cases,
  Option-cases, inl, inr, arith, not_both, str-cases,
}
use llm_benchmark.Json.{Value}
use llm_benchmark.Text.{str_append}
use llm_benchmark.ModelLoad.{
  LoadState, loaded, starting, Url, classify, serving_ids, running_state, server_root, state_ready,
  record_of, nested_str, classify_status, is_peer,
}
use llm_benchmark.ModelLoad.Gate.{Network, Gate, get_json, settle_running, probe, probe_listed}

abbrev pub is_loaded : LoadState → Bool
is_loaded loaded = true
is_loaded _ = false

abbrev pub is_starting : LoadState → Bool
is_starting starting = true
is_starting _ = false

settle_running-starting :
    (s : Option String)
    → is_starting (settle_running s) ≡ true
    → (x : String) × (s ≡ some x) × (x ≢ state_ready)
unfolding settle_running
settle_running-starting none h = absurd (not_both refl h)
settle_running-starting (some s) h = elim (str-cases s state_ready) [
  | inl (same, e) ↦ absurd (not_both refl (rw (settle_running, e) at h))
  | inr (differs, e) ↦ (s, refl, differs)
]

classify_status-starting : (s : Option String) → is_starting (classify_status s) ≡ false
unfolding classify_status
classify_status-starting none = refl
classify_status-starting (some s) = ground arith

classify-starting : (models : Value) (model : String) → is_starting (classify models model) ≡ false
unfolding classify
classify-starting models model = elim (Option-cases (record_of models model)) [
  | inl e ↦ rw (classify, e) refl
  | inr (r, e) ↦ elim (Bool-cases (is_peer (nested_str r ("meta" ∷ "llamaswap" ∷ "type" ∷ [])))) [
    | inl f ↦ rw (classify, e, f) refl
    | inr f ↦
        rw (classify, e, f) (classify_status-starting (nested_str r ("status" ∷ "value" ∷ [])))
  ]
]

is_loaded-settle_running : (s : Option String) → is_loaded (settle_running s) ≡ false
unfolding settle_running
is_loaded-settle_running none = refl
is_loaded-settle_running (some s) = ground arith

module _ (network : Network) (parse_url : String → Option Url) (gate : Gate) where
  -- The answer of `/running` to the probe.
  abbrev pub running_answer : String → String → Value → ℕ → Option String
  running_answer endpoint model models t =
      running_state
        (get_json network parse_url gate (str_append (server_root parse_url endpoint) "/running")
          t).0
        (serving_ids models model)

  probe_listed-settled :
      (endpoint model : String) (models : Value) (s : LoadState) (t : ℕ)
      → is_loaded (probe_listed network parse_url gate endpoint model models s t).0 ≡ false
  unfolding probe_listed
  probe_listed-settled endpoint model models LoadState.loaded t =
      is_loaded-settle_running (running_answer endpoint model models t)
  probe_listed-settled endpoint model models LoadState.ready t = refl
  probe_listed-settled endpoint model models LoadState.starting t = refl
  probe_listed-settled endpoint model models LoadState.not_loaded t = refl
  probe_listed-settled endpoint model models LoadState.remote t = refl
  probe_listed-settled endpoint model models LoadState.unknown t = refl

  -- A probe never leaves open whether a listed upstream answers.
  pub probe-settled :
      (endpoint model : String) (t : ℕ)
      → is_loaded (probe network parse_url gate endpoint model t).0 ≡ false
  unfolding probe
  probe-settled endpoint model t =
      elim (Option-cases (get_json network parse_url gate (str_append endpoint "/models") t).0) [
        | inl e ↦ rw (probe, e) refl
        | inr (models, e) ↦
            rw (probe, e)
              (probe_listed-settled endpoint model models (classify models model)
                (get_json network parse_url gate (str_append endpoint "/models") t).1)
      ]

  listed-starting :
      (endpoint model : String) (models : Value) (s : LoadState) (t : ℕ)
      → is_starting s ≡ false
      → is_starting (probe_listed network parse_url gate endpoint model models s t).0 ≡ true
      → (x : String) × (is_loaded s ≡ true)
        × (running_answer endpoint model models t ≡ some x)
        × (x ≢ state_ready)
  unfolding probe_listed
  listed-starting endpoint model models LoadState.loaded t k h =
      let (x, e, differs) = settle_running-starting (running_answer endpoint model models t) h in
      (x, refl, e, differs)
  listed-starting endpoint model models LoadState.ready t k h = absurd (not_both k h)
  listed-starting endpoint model models LoadState.starting t k h = absurd (not_both k refl)
  listed-starting endpoint model models LoadState.not_loaded t k h = absurd (not_both k h)
  listed-starting endpoint model models LoadState.remote t k h = absurd (not_both k h)
  listed-starting endpoint model models LoadState.unknown t k h = absurd (not_both k h)

  -- A probe that says STARTING has a listing with the model as loaded, and an answer of `/running`
  -- that gives an upstream of the model a state other than `ready`.
  pub probe-starting :
      (endpoint model : String) (t : ℕ)
      → is_starting (probe network parse_url gate endpoint model t).0 ≡ true
      → (models : Value) × (x : String) × ((get_json network parse_url gate
            (str_append endpoint "/models")
            t).0
          ≡ some models)
        × (is_loaded (classify models model) ≡ true)
        × (running_answer endpoint model models
              (get_json network parse_url gate (str_append endpoint "/models") t).1
            ≡ some x)
        × (x ≢ state_ready)
  unfolding probe
  probe-starting endpoint model t h =
      elim (Option-cases (get_json network parse_url gate (str_append endpoint "/models") t).0) [
        | inl e ↦ absurd (not_both refl (rw (probe, e) at h))
        | inr (models, e) ↦
            let (x, listed, answer, differs) =
              listed-starting endpoint model models (classify models model)
                (get_json network parse_url gate (str_append endpoint "/models") t).1
                (classify-starting models model) (rw (probe, e) at h) in
            (models, x, e, listed, answer, differs)
      ]
