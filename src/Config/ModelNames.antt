-- ===== src/Config/ModelNames.antt =====
-- `update_model_environment` of crates/benchmark-types/src/config/mod.rs and what the container gets.
use llm_benchmark.Common.{
  Bool, true, false, String, List, [], ◌∷◌, Option, none, some, if◌then◌else◌, ◌≡◌, refl, ◌∙◌, ap,
  str_eq, eq_iff, Bool-cases, inl, inr, is_some, All, ◌≢◌, map, ◌||◌, sym, str-cases,
}
use llm_benchmark.Maps.{lookup, AreUnique}
use llm_benchmark.Config.{
  Variables, DockerConfig, environment_with_defaults, default_environment, set_if_there, set_model,
  is_model_variable, update_model_environment,
}
use llm_benchmark.Config.Environment.{or_else, last_value, environment_last_wins}

-- The new value of a variable that is there, if the test holds.
abbrev pub renamed : String → Bool → Option String → Option String
renamed value change none = none
renamed value change (some v) = some (if change then value else v)

renamed_not : (value : String) (o : Option String) → renamed value false o ≡ o
renamed_not value none = refl
renamed_not value (some v) = refl

differ : (s t : String) → (s ≢ t) → str_eq s t ≡ false
differ s t apart = elim (str-cases s t) [ inl (same, e) ↦ absurd (apart same) | inr (apart, e) ↦ e ]

lookup-set_if_there :
    (j key value : String) (m : Variables)
    → lookup j (set_if_there key value m) ≡ renamed value (str_eq j key) (lookup j m)
unfolding lookup set_if_there
lookup-set_if_there j key value [] = refl
lookup-set_if_there j key value ((k, v) ∷ m) = elim (str-cases k key) [
  | inl (same, e) ↦ elim (str-cases k j) [
    | inl (hit, f) ↦
        let g : str_eq j key ≡ true = (eq_iff j key).1 (sym hit ∙ same) in
        rw (set_if_there, lookup, e, f, g) refl
    | inr (miss, f) ↦
        let g : str_eq j key ≡ false = differ j key (λ q. miss (same ∙ sym q)) in
        rw (set_if_there, lookup, e, f, g) (sym (renamed_not value (lookup j m)))
  ]
  | inr (apart, e) ↦ elim (str-cases k j) [
    | inl (hit, f) ↦
        let g : str_eq j key ≡ false = differ j key (λ q. apart (hit ∙ q)) in
        rw (set_if_there, lookup, e, f, g) refl
    | inr (miss, f) ↦ rw (set_if_there, lookup, e, f) (lookup-set_if_there j key value m)
  ]
]

renamed-renamed :
    (value : String) (b c : Bool) (o : Option String)
    → renamed value b (renamed value c o) ≡ renamed value (c || b) o
renamed-renamed value b true none = refl
renamed-renamed value b false none = refl
renamed-renamed value true true (some v) = refl
renamed-renamed value false true (some v) = refl
renamed-renamed value b false (some v) = refl

set_next :
    (j key model : String) (b : Bool) (m changed : Variables)
    → lookup j changed ≡ renamed model b (lookup j m)
    → lookup j (set_if_there key model changed) ≡ renamed model (b || str_eq j key) (lookup j m)
set_next j key model b m changed h =
    lookup-set_if_there j key model changed
    ∙ ap (renamed model (str_eq j key)) h
    ∙ renamed-renamed model (str_eq j key) b (lookup j m)

lookup-set_model :
    (j model : String) (m : Variables)
    → lookup j (set_model model m) ≡ renamed model (is_model_variable j) (lookup j m)
unfolding set_model
lookup-set_model j model m = set_next j "ANTHROPIC_DEFAULT_SONNET_MODEL" model _ m _ (
    set_next j "ANTHROPIC_DEFAULT_OPUS_MODEL" model _ m _ (
      set_next j "ANTHROPIC_DEFAULT_HAIKU_MODEL" model _ m _
        (lookup-set_if_there j "ANTHROPIC_MODEL" model m)))

-- The keys stay.
is_some-renamed :
    (value : String) (b : Bool) (o : Option String) → is_some (renamed value b o) ≡ is_some o
is_some-renamed value b none = refl
is_some-renamed value b (some v) = refl

set_if_there-AreUnique :
    (key value : String) (m : Variables) → AreUnique m → AreUnique (set_if_there key value m)
unfolding set_if_there
set_if_there-AreUnique key value [] u = tt
set_if_there-AreUnique key value ((k, v) ∷ m) u = elim (Bool-cases (str_eq k key)) [
  | inl e ↦ rw (set_if_there, e) u
  | inr e ↦
      rw (set_if_there, e)
        (
          ap is_some (lookup-set_if_there k key value m)
              ∙ is_some-renamed value (str_eq k key) (lookup k m)
              ∙ u.0,
          set_if_there-AreUnique key value m u.1,
        )
]

set_model-AreUnique : (model : String) (m : Variables) → AreUnique m → AreUnique (set_model model m)
unfolding set_model
set_model-AreUnique model m u = set_if_there-AreUnique "ANTHROPIC_DEFAULT_SONNET_MODEL" model _ (
    set_if_there-AreUnique "ANTHROPIC_DEFAULT_OPUS_MODEL" model _ (
      set_if_there-AreUnique "ANTHROPIC_DEFAULT_HAIKU_MODEL" model _
        (set_if_there-AreUnique "ANTHROPIC_MODEL" model m u)))

set_models-AreUnique :
    (model : String) (es : List Variables)
    → All AreUnique es
    → All AreUnique (map (set_model model) es)
set_models-AreUnique model [] u = tt
set_models-AreUnique model (e ∷ es) u =
    (set_model-AreUnique model e u.0, set_models-AreUnique model es u.1)

renamed-or_else :
    (value : String) (b : Bool) (o p : Option String)
    → or_else (renamed value b o) (renamed value b p) ≡ renamed value b (or_else o p)
renamed-or_else value b none p = refl
renamed-or_else value b (some v) p = refl

last_value-set_model :
    (j model : String) (es : List Variables)
    → last_value j (map (set_model model) es)
      ≡ renamed model (is_model_variable j) (last_value j es)
last_value-set_model j model [] = refl
last_value-set_model j model (e ∷ es) =
    rw (last_value-set_model j model es, lookup-set_model j model e)
      (renamed-or_else model (is_model_variable j) (last_value j es) (lookup j e))

default-renamed :
    (j model : String)
    → lookup j default_environment
      ≡ renamed model (is_model_variable j) (lookup j default_environment)
unfolding lookup
default-renamed j model = elim (str-cases "OPENAI_BASE_URL" j) [
  | inl (same, e) ↦ rw (e, ← same) refl
  | inr (apart, e) ↦ rw e refl
]

-- After `update_model_environment` a container gets the name of the model in each of the four model
-- variables that it has, and every other variable as it was; no variable comes or goes.
pub update_model_environment_renames :
    (model : String) (d : DockerConfig)
    → All AreUnique d.environment
    → (j : String)
    → lookup j (environment_with_defaults (update_model_environment model d))
      ≡ renamed model (is_model_variable j) (lookup j (environment_with_defaults d))
unfolding update_model_environment
update_model_environment_renames model d u j =
    environment_last_wins (update_model_environment model d)
      (set_models-AreUnique model d.environment u) j
    ∙ rw (last_value-set_model j model d.environment) (
        ap (or_else (renamed model (is_model_variable j) (last_value j d.environment)))
          (default-renamed j model))
    ∙ renamed-or_else model (is_model_variable j) (last_value j d.environment)
        (lookup j default_environment)
    ∙ ap (renamed model (is_model_variable j)) (sym (environment_last_wins d u j))
