-- ===== src/Suite/Stream.antt =====
-- `run_all_exercises` of `ExerciseRunner`, crates/benchmark-core/src/exercise_runner/mod.rs: its stream
-- of futures with `buffer_unordered`. A step pulls the next exercise from the stream, where there is
-- room, or is the end of one of the exercises under way. How the run of an exercise ends, its stored
-- result and its earlier duration are arguments; during a call nothing else writes the stored results of
-- the exercises that still wait.
use Prim.Native.Nat.{max}
use llm_benchmark.Common.{
  ℕ, suc, ◌<◌, Bool, true, false, not, List, [], ◌∷◌, ◌++◌, Option, none, some, if◌then◌else◌, leb,
  length, ◌≡◌,
}
use llm_benchmark.Json.{Value, boolean, get, ◌>>=◌}
use llm_benchmark.Ordering.{sort_by}
use llm_benchmark.Suite.{filter_map}

-- `as_bool`.
unfoldable pub as_bool : Value → Option Bool
as_bool (boolean b) = some b
as_bool _ = none

abbrev or_false : Option Bool → Bool
or_false none = false
or_false (some b) = b

-- The success of a stored result, which may not be there or not be JSON.
unfoldable pub stored_success : Option Value → Bool
unfolding get as_bool
stored_success stored = or_false (stored >>= λ v. get "success" v >>= as_bool)

-- One of the exercises under way, and the others.
pub data Takes {ℓ} {A : Type ℓ} : List A → A → List A → Type ℓ where
  first : {x : A} {xs : List A} → Takes (x ∷ xs) x xs
  later : {x y : A} {xs ys : List A} → Takes xs x ys → Takes (y ∷ xs) x (y ∷ ys)

-- What `collect` has for an exercise: a result, or nothing if its run failed.
pub record Runs {ℓ κ} (E : Type ℓ) (R : Type κ) : Type (ℓ ⊔ κ) where
  pub outcome : E → Option R
  pub stored : E → Option Value
  pub duration : E → ℕ

module _ {ℓ κ} {E : Type ℓ} {R : Type κ} (runs : Runs E R) (retry : Bool) (configured : ℕ) where
  -- `config.parallelism.max(1)`.
  abbrev pub buffer_size : ℕ
  buffer_size = max configured 1

  -- The slowest come first in a retry.
  unfoldable pub start_order : List E → List E
  unfolding sort_by
  start_order exercises =
      if retry
      then sort_by (λ a b. leb (Runs.duration runs b) (Runs.duration runs a)) exercises
      else exercises

  -- The test of the filter.
  unfoldable pub keep : E → Bool
  unfolding stored_success
  keep e = if retry then true else not (stored_success (Runs.stored runs e))

  -- What the stream still has, the futures in the buffer, and those that ended, in that order.
  pub record Buffer : Type ℓ where
    pub waiting : List E
    pub running : List E
    pub finished : List E

  unfoldable pub begin : List E → Buffer
  unfolding start_order
  begin exercises = record { waiting = start_order exercises; running = []; finished = [] }

  pub data Step (s : Buffer) : Buffer → Type ℓ where
    skips :
        (e : E) (es : List E)
        → s.waiting ≡ e ∷ es
        → length s.running < buffer_size
        → keep e ≡ false
        → Step s (record s { waiting = es })
    starts :
        (e : E) (es : List E)
        → s.waiting ≡ e ∷ es
        → length s.running < buffer_size
        → keep e ≡ true
        → Step s (record s { waiting = es; running = s.running ++ (e ∷ []) })
    ends :
        (e : E) (es : List E)
        → Takes s.running e es
        → Step s (record s { running = es; finished = s.finished ++ (e ∷ []) })

  -- A state after so many steps.
  pub data Reach (s : Buffer) : ℕ → Buffer → Type ℓ where
    here : Reach s 0 s
    next : {n : ℕ} {t u : Buffer} → Reach s n t → Step t u → Reach s (suc n) u

  -- The results, where the errors are left out.
  unfoldable pub run_results : Buffer → List R
  unfolding filter_map
  run_results s = filter_map (Runs.outcome runs) s.finished
