-- ===== src/Schedule/Overlap.antt =====
-- What `schedule_batch` of benchmark-web/src/services/queue_processor.rs leaves out because of items
-- that are pending, and what it adds although an item runs.
use llm_benchmark.Common.{
  ℕ, true, false, String, ◌≡◌, refl, sym, ap, ◌∙◌, subst, inl, inr, List, [], ◌∷◌, ◌++◌, some,
  arith, retain, any, Bool-cases, str_eq, str_eq_self, any-append_right,
}
use llm_benchmark.Status.{is_pending}
use llm_benchmark.Item.{BenchmarkQueueItem, new_item}
use llm_benchmark.Queue.{InnerQueue, get_pending_items, poll_next}
use llm_benchmark.Queue.Ids.{pending_ids}
use llm_benchmark.Queue.Invariant.{Inv}
use llm_benchmark.Queue.Polling.{poll_next_oldest}
use llm_benchmark.Schedule.{
  Batch, Catalog, same_key, is_queued, is_done, is_skipped, kept, each_language, single_plan, plan,
  make_items, schedule_batch,
}
use llm_benchmark.Schedule.Repeats.{schedule_batch-made, make_items-nil}

-- The name of an exercise, not of a group of them.
unfoldable pub IsExerciseName : String → Type 0
IsExerciseName name = (str_eq name "__slow__" ≡ false) × (str_eq name "__quick__" ≡ false)

single_skipped :
    (c : Catalog) (b : Batch) (existing : List BenchmarkQueueItem) (language exercise : String)
    → b.languages ≡ language ∷ []
    → IsExerciseName exercise
    → is_skipped c b existing language exercise ≡ true
    → plan c b existing (some exercise) ≡ []
unfolding IsExerciseName plan single_plan each_language kept
single_skipped c b existing language exercise one named skipped =
    simp (named.0, named.1, one, skipped)

-- A pending item of the same agent, language and exercise keeps a batch of one exercise from adding
-- anything, whatever model the item and the batch are for.
pub other_model_skipped :
    (c : Catalog) (b : Batch) (now : ℕ) (uuids : List String) (q : InnerQueue)
    (before after : List BenchmarkQueueItem) (item : BenchmarkQueueItem)
    → get_pending_items q ≡ before ++ item ∷ after
    → b.agent_name ≡ item.agent_name
    → b.languages ≡ item.language ∷ []
    → b.exercise ≡ some item.exercise
    → IsExerciseName item.exercise
    → b.retry ≡ false
    → (schedule_batch c b now uuids q).0 ≡ []
unfolding is_skipped is_queued
other_model_skipped c b now uuids q before after item pending agent languages exercise named fresh =
    let key = same_key b.agent_name item.language item.exercise in
    let hit : any key (item ∷ after) ≡ true =
      simp (
        agent,
        str_eq_self item.agent_name,
        str_eq_self item.language,
        str_eq_self item.exercise,
      ) in
    let seen : any key (get_pending_items q) ≡ true =
      subst (λ xs. any key xs ≡ true) (sym pending)
        (any-append_right key before (item ∷ after) hit) in
    schedule_batch-made c b now uuids q fresh
    ∙ ap (λ e. make_items b now uuids (plan c b (get_pending_items q) e)) exercise
    ∙ ap (make_items b now uuids) (
        single_skipped c b (get_pending_items q) item.language item.exercise languages named
          (ground (arith, fresh, seen)))
    ∙ make_items-nil b now uuids

none_pending :
    (xs : List BenchmarkQueueItem)
    → pending_ids xs ≡ []
    → retain (λ item. is_pending item.status) xs ≡ []
none_pending [] h = refl
none_pending (x ∷ xs) h = elim (Bool-cases (is_pending x.status)) [
  | inl e ↦ absurd (cc_cons (rw e at h))
  | inr e ↦ rw e (none_pending xs (rw e at h))
]
  where
    cc_cons : {k : String} {ks : List String} → k ∷ ks ≡ [] → ⊥
    cc_cons h = cc

single_planned :
    (c : Catalog) (b : Batch) (language exercise : String)
    → b.languages ≡ language ∷ []
    → IsExerciseName exercise
    → c.result_exists exercise b.agent_name b.model language ≡ false
    → plan c b [] (some exercise) ≡ (language, exercise) ∷ []
unfolding IsExerciseName plan single_plan each_language kept is_skipped is_queued is_done
single_planned c b language exercise one named fresh = elim (Bool-cases b.retry) [
  | inl e ↦ simp (named.0, named.1, one, fresh, e)
  | inr e ↦ simp (named.0, named.1, one, fresh, e)
]

-- When the only pending item has been polled and is RUNNING, a batch of one exercise that has no
-- successful result yet adds an item for it, also if the running item is for that exercise.
pub running_scheduled_again :
    (c : Catalog) (b : Batch) (now : ℕ) (uuid : String) (q : InnerQueue)
    (k language exercise : String)
    → Inv q
    → pending_ids q.all_items ≡ k ∷ []
    → b.languages ≡ language ∷ []
    → b.exercise ≡ some exercise
    → IsExerciseName exercise
    → b.retry ≡ false
    → c.result_exists exercise b.agent_name b.model language ≡ false
    → (schedule_batch c b now (uuid ∷ []) (poll_next q).1).0
      ≡ new_item uuid now b.agent_name b.model b.thinking_level language exercise b.retry ∷ []
unfolding get_pending_items make_items
running_scheduled_again c b now uuid q k language exercise v one languages named name fresh
      missing =
    let polled = poll_next_oldest k [] q v one in
    schedule_batch-made c b now (uuid ∷ []) (poll_next q).1 fresh
    ∙ ap (make_items b now (uuid ∷ [])) (
        ap (plan c b (get_pending_items (poll_next q).1)) named
        ∙ ap (λ xs. plan c b xs (some exercise))
            (none_pending (poll_next q).1.all_items polled.left)
        ∙ single_planned c b language exercise languages name missing)
