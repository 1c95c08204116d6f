-- ===== src/Config/Environment.antt =====
-- The environment that a container gets from its configuration, crates/benchmark-types/src/config/mod.rs.
use llm_benchmark.Common.{
  false, String, List, [], ◌∷◌, Option, none, some, if◌then◌else◌, ◌≡◌, refl, ◌∙◌, ap, str_eq,
  Bool-cases, inl, inr, is_some, All, sym, str-cases, not_both,
}
use llm_benchmark.Maps.{upsert, lookup, lookup-upsert, AreUnique}
use llm_benchmark.Config.{
  Variables, DockerConfig, extend, extend_all, environment_map, environment_with_defaults, fill_in,
  default_environment, keep_or,
}

abbrev pub or_else : Option String → Option String → Option String
or_else none o = o
or_else (some v) o = some v

-- The value of the last entry that has the variable.
abbrev pub last_value : String → List Variables → Option String
last_value k [] = none
last_value k (entry ∷ entries) = or_else (last_value k entries) (lookup k entry)

or_else_assoc : (a b c : Option String) → or_else (or_else a b) c ≡ or_else a (or_else b c)
or_else_assoc none b c = refl
or_else_assoc (some v) b c = refl

-- The value at the head of an entry whose other keys differ from it.
head_first :
    (j k v : String) (rest env : Option String)
    → (k ≡ j → is_some rest ≡ false)
    → or_else rest (if str_eq k j then some v else env)
      ≡ or_else (if str_eq k j then some v else rest) env
head_first j k v none env new = elim (Bool-cases (str_eq k j)) [
  | inl e ↦ rw e refl
  | inr e ↦ rw e refl
]
head_first j k v (some w) env new = elim (str-cases k j) [
  | inl (same, e) ↦ absurd (not_both (new same) refl)
  | inr (apart, e) ↦ rw e refl
]

keep_or-or_else : (v : String) (o : Option String) → some (keep_or v o) ≡ or_else o (some v)
keep_or-or_else v none = refl
keep_or-or_else v (some w) = refl

pub none_else : (o : Option String) → o ≡ or_else o none
none_else none = refl
none_else (some v) = refl

-- A default is taken where the variable is not there.
lookup-default :
    (j k v : String) (env : Variables)
    → lookup j (upsert k (keep_or v) env) ≡ or_else (lookup j env) (lookup j ((k, v) ∷ []))
unfolding lookup
lookup-default j k v env = lookup-upsert j k (keep_or v) env ∙ elim (str-cases k j) [
  | inl (same, e) ↦ rw (e, same) (keep_or-or_else v (lookup j env))
  | inr (apart, e) ↦ rw e (none_else (lookup j env))
]

lookup-extend :
    (j : String) (env entry : Variables)
    → AreUnique entry
    → lookup j (extend env entry) ≡ or_else (lookup j entry) (lookup j env)
unfolding extend lookup
lookup-extend j env [] u = refl
lookup-extend j env ((k, v) ∷ entry) u =
    lookup-extend j (upsert k (λ _. v) env) entry u.1
    ∙ ap (or_else (lookup j entry)) (lookup-upsert j k (λ _. v) env)
    ∙ head_first j k v (lookup j entry) (lookup j env) (λ e. rw e at u.0)

lookup-extend_all :
    (j : String) (env : Variables) (entries : List Variables)
    → All AreUnique entries
    → lookup j (extend_all env entries) ≡ or_else (last_value j entries) (lookup j env)
unfolding extend_all
lookup-extend_all j env [] u = refl
lookup-extend_all j env (entry ∷ entries) u =
    lookup-extend_all j (extend env entry) entries u.1
    ∙ ap (or_else (last_value j entries)) (lookup-extend j env entry u.0)
    ∙ sym (or_else_assoc (last_value j entries) (lookup j entry) (lookup j env))

-- A variable of the container has the value of the last entry of the configuration that sets it, and
-- one that none sets has that of the defaults, if it has one.
pub environment_last_wins :
    (d : DockerConfig)
    → All AreUnique d.environment
    → (j : String)
    → lookup j (environment_with_defaults d)
      ≡ or_else (last_value j d.environment) (lookup j default_environment)
unfolding environment_with_defaults environment_map fill_in lookup
environment_last_wins d u j =
    lookup-default j "OPENAI_BASE_URL" "http://host.docker.internal:8080/v1" (environment_map d)
    ∙ ap (λ o. or_else o (lookup j default_environment))
        (lookup-extend_all j [] d.environment u ∙ sym (none_else (last_value j d.environment)))
