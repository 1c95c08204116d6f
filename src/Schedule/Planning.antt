-- ===== src/Schedule/Planning.antt =====
-- What a batch plans: the plans of `schedule_batch` of
-- benchmark-web/src/services/queue_processor.rs against the list of all pairs that are asked for.
use mathlib.Core.List.{append-nil, append_assoc}
use llm_benchmark.Common.{
  ℕ, ◌≤◌, Bool, true, not, String, ◌≡◌, refl, sym, ap, ◌∙◌, inl, inr, List, [], ◌∷◌, ◌++◌, Option,
  none, some, map, All, arith, length, retain, retain-append, if◌then◌else◌, Bool-cases, str_eq,
  str_eq_self, All-map, any-append_right, retain-All, any, ◌&&◌, true, false, is_some,
}
use llm_benchmark.Status.{is_pending}
use llm_benchmark.Item.{BenchmarkQueueItem, new_item, with_category}
use llm_benchmark.Queue.{InnerQueue, add, add_all, get_pending_items}
use llm_benchmark.Schedule.{
  Batch, Catalog, same_key, is_queued, is_done, is_skipped, kept, each_language, slow_exercises,
  slow_plan, quick_plan, single_plan, full_plan, plan, make_items,
}

abbrev pub Pairs : Type 0
Pairs = List (String × String)

-- All the pairs of a language and one of its exercises.
unfoldable pub pairs : (String → List String) → List String → Pairs
pairs exercises [] = []
pairs exercises (language ∷ languages) =
    map (λ e. (language, e)) (exercises language) ++ pairs exercises languages

module _ (skip : String → String → Bool) where
  kept_lem :
      (language : String) (xs : List String)
      → kept skip language xs ≡ retain (λ p. not (skip p.0 p.1)) (map (λ e. (language, e)) xs)
  unfolding kept
  kept_lem language [] = refl
  kept_lem language (x ∷ xs) = ground (arith, kept_lem language xs)

  each_language_lem :
      (exercises : String → List String) (languages : List String)
      → each_language skip exercises languages
        ≡ retain (λ p. not (skip p.0 p.1)) (pairs exercises languages)
  unfolding each_language pairs
  each_language_lem exercises [] = refl
  each_language_lem exercises (language ∷ languages) = sym (
      retain-append (λ p. not (skip p.0 p.1)) (map (λ e. (language, e)) (exercises language))
        (pairs exercises languages)
      ∙ rw (← kept_lem language (exercises language), ← each_language_lem exercises languages) refl)

-- The pairs that a batch asks for: the exercises of its languages that are not quick, those that are,
-- the one that it names, or all.
unfoldable pub requested : Catalog → Batch → Option String → Pairs
requested c b none = pairs c.all_exercises b.languages
requested c b (some exercise) =
    if str_eq exercise "__slow__"
    then pairs
        (λ l. retain (λ e. not (any (λ q. str_eq q e) (c.quick_exercises l))) (c.all_exercises l))
        b.languages
    else if str_eq exercise "__quick__"
    then pairs c.quick_exercises b.languages
    else pairs (λ _. exercise ∷ []) b.languages

-- The item is for the exercise and the agent of the batch.
abbrev pub asks_same : Batch → String → String → BenchmarkQueueItem → Bool
asks_same b language exercise item =
    str_eq item.exercise exercise
    && str_eq item.language language
    && str_eq item.agent_name b.agent_name

-- Whether a pair is to be run: in a retry always; else not if it has a successful result, and, where
-- the batch names an exercise or a group, not if an item for it is pending.
abbrev pub is_wanted :
    Catalog → Batch → List BenchmarkQueueItem → Option String → String × String → Bool
is_wanted c b existing named (language, exercise) =
    if b.retry
    then true
    else if c.result_exists exercise b.agent_name b.model language
    then false
    else if is_some named
    then not (any (asks_same b language exercise) existing)
    else true

retain-same {ℓ} :
    {A : Type ℓ} (p q : A → Bool)
    → ((x : A) → p x ≡ q x)
    → (xs : List A) → retain p xs ≡ retain q xs
retain-same p q same [] = refl
retain-same p q same (x ∷ xs) = rw (same x, retain-same p q same xs) refl

any-same_key :
    (b : Batch) (language exercise : String) (existing : List BenchmarkQueueItem)
    → is_queued b.agent_name language exercise existing
      ≡ any (asks_same b language exercise) existing
unfolding is_queued
any-same_key b language exercise [] = refl
any-same_key b language exercise (x ∷ xs) = ground (arith, any-same_key b language exercise xs)

module _ (c : Catalog) (b : Batch) (existing : List BenchmarkQueueItem) where
  is_done-is_wanted :
      (p : String × String) → not (is_done c b existing p.0 p.1) ≡ is_wanted c b existing none p
  unfolding is_done
  is_done-is_wanted (language, exercise) = ground arith

  is_skipped-is_wanted :
      (named : String) (p : String × String)
      → not (is_skipped c b existing p.0 p.1) ≡ is_wanted c b existing (some named) p
  unfolding is_skipped is_done
  is_skipped-is_wanted named (language, exercise) =
      ground (arith, any-same_key b language exercise existing)

  -- The plan of a named exercise or group in the words of the code.
  pub plan_skipped :
      (exercise : String)
      → plan c b existing (some exercise)
        ≡ retain (λ p. not (is_skipped c b existing p.0 p.1)) (requested c b (some exercise))
  unfolding plan slow_plan quick_plan single_plan slow_exercises requested
  plan_skipped exercise = elim (Bool-cases (str_eq exercise "__slow__")) [
    | inl e ↦ rw e (each_language_lem (is_skipped c b existing) (slow_exercises c) b.languages)
    | inr e ↦ rw e (elim (Bool-cases (str_eq exercise "__quick__")) [
      | inl q ↦ rw q (each_language_lem (is_skipped c b existing) c.quick_exercises b.languages)
      | inr q ↦ rw q (each_language_lem (is_skipped c b existing) (λ _. exercise ∷ []) b.languages)
    ])
  ]

-- The plan of a batch is the pairs that it asks for, in their order: in a retry all of them, and
-- otherwise those without a successful result that, if an exercise or one of the two groups is named,
-- have no pending item.
pub plan_exact :
    (c : Catalog) (b : Batch) (existing : List BenchmarkQueueItem) (exercise : Option String)
    → plan c b existing exercise ≡ retain (is_wanted c b existing exercise) (requested c b exercise)
unfolding plan full_plan requested
plan_exact c b existing none =
    each_language_lem (is_done c b existing) c.all_exercises b.languages
    ∙ retain-same (λ p. not (is_done c b existing p.0 p.1)) _ (is_done-is_wanted c b existing)
        (pairs c.all_exercises b.languages)
plan_exact c b existing (some exercise) =
    plan_skipped c b existing exercise
    ∙ retain-same (λ p. not (is_skipped c b existing p.0 p.1)) _
        (is_skipped-is_wanted c b existing exercise) (requested c b (some exercise))

abbrev pub pair_of : BenchmarkQueueItem → String × String
pair_of item = (item.language, item.exercise)

module _ (b : Batch) (now : ℕ) where
  pub make_items-pending :
      (uuids : List String) (ps : Pairs)
      → All (λ item. is_pending item.status ≡ true) (make_items b now uuids ps)
  unfolding make_items new_item with_category
  make_items-pending uuids [] = tt
  make_items-pending [] (p ∷ ps) = tt
  make_items-pending (uuid ∷ uuids) (p ∷ ps) = (refl, make_items-pending uuids ps)

  -- With enough ids, every planned pair has an item.
  pub make_items-is_queued :
      (uuids : List String) (ps : Pairs)
      → length ps ≤ length uuids
      → All (λ p. is_queued b.agent_name p.0 p.1 (make_items b now uuids ps) ≡ true) ps
  unfolding make_items new_item with_category is_queued
  make_items-is_queued uuids [] le = tt
  make_items-is_queued [] (p ∷ ps) le = absurd (omega (arith, le))
  make_items-is_queued (uuid ∷ uuids) ((l, e) ∷ ps) le = (
    rw (str_eq_self b.agent_name, str_eq_self l, str_eq_self e) refl,
    All-map ps
        (λ p h.
          any-append_right (same_key b.agent_name p.0 p.1)
            (new_item uuid now b.agent_name b.model b.thinking_level l e b.retry ∷ [])
            (make_items b now uuids ps) h)
        (make_items-is_queued uuids ps (omega (arith, le))),
  )

  pub make_items-pairs :
      (uuids : List String) (ps : Pairs)
      → length ps ≤ length uuids
      → map pair_of (make_items b now uuids ps) ≡ ps
  unfolding make_items new_item with_category
  make_items-pairs uuids [] le = refl
  make_items-pairs [] (p ∷ ps) le = absurd (omega (arith, le))
  make_items-pairs (uuid ∷ uuids) ((l, e) ∷ ps) le =
      ap (◌∷◌ (l, e)) (make_items-pairs uuids ps (omega (arith, le)))

add_all-all_items :
    (items : List BenchmarkQueueItem) (q : InnerQueue)
    → (add_all items q).all_items ≡ q.all_items ++ items
unfolding add_all add
add_all-all_items [] q = sym (append-nil q.all_items)
add_all-all_items (item ∷ items) q =
    add_all-all_items items (add item q) ∙ append_assoc q.all_items (item ∷ []) items

-- Pending items that are added stand last among the pending ones.
pub get_pending_items-add_all :
    (items : List BenchmarkQueueItem) (q : InnerQueue)
    → All (λ item. is_pending item.status ≡ true) items
    → get_pending_items (add_all items q) ≡ get_pending_items q ++ items
unfolding get_pending_items
get_pending_items-add_all items q h =
    ap (retain (λ item. is_pending item.status)) (add_all-all_items items q)
    ∙ retain-append (λ item. is_pending item.status) q.all_items items
    ∙ ap (◌++◌ (retain (λ item. is_pending item.status) q.all_items))
        (retain-All (λ item. is_pending item.status) items h)
