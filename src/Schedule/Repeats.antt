-- ===== src/Schedule/Repeats.antt =====
-- What `schedule_batch` of benchmark-web/src/services/queue_processor.rs adds to the queue, and what
-- it adds when it is called again.
use llm_benchmark.Common.{
  ℕ, ◌≤◌, Bool, true, false, not, String, ◌≡◌, refl, sym, ap, ◌∙◌, subst, List, [], ◌++◌, none,
  some, map, All, arith, length, All-map, any-append_right, any-append_left, retain-none,
  All-of_retain,
}
use llm_benchmark.Status.{is_pending}
use llm_benchmark.Item.{BenchmarkQueueItem}
use llm_benchmark.Queue.{InnerQueue, add_all, get_pending_items}
use llm_benchmark.Schedule.{
  Batch, Catalog, same_key, is_queued, is_done, is_skipped, full_plan, plan, make_items,
  schedule_batch, in_order,
}
use llm_benchmark.Schedule.Sorting.{All-sort}
use llm_benchmark.Schedule.Planning.{
  requested, plan_skipped, make_items-pending, make_items-is_queued, pair_of, make_items-pairs,
  get_pending_items-add_all,
}

in_order-All :
    (c : Catalog) (P : BenchmarkQueueItem → Type 0) (retry : Bool) (made : List BenchmarkQueueItem)
    → All P made
    → All P (in_order c retry made)
unfolding in_order
in_order-All c P true made h = All-sort _ P made h
in_order-All c P false made h = h

-- The items that a batch adds stand last among the pending items, in the order in which they are
-- returned, and the other pending items stay as they are.
pub schedule_batch_pending :
    (c : Catalog) (b : Batch) (now : ℕ) (uuids : List String) (q : InnerQueue)
    → get_pending_items (schedule_batch c b now uuids q).1
      ≡ get_pending_items q ++ (schedule_batch c b now uuids q).0
unfolding schedule_batch
schedule_batch_pending c b now uuids q =
    let made = make_items b now uuids (plan c b (get_pending_items q) b.exercise) in
    get_pending_items-add_all (in_order c b.retry made) q (
      in_order-All c (λ item. is_pending item.status ≡ true) b.retry made
        (make_items-pending b now uuids (plan c b (get_pending_items q) b.exercise)))

-- Without a retry, the items that are added are those made for the plan.
pub schedule_batch-made :
    (c : Catalog) (b : Batch) (now : ℕ) (uuids : List String) (q : InnerQueue)
    → b.retry ≡ false
    → (schedule_batch c b now uuids q).0
      ≡ make_items b now uuids (plan c b (get_pending_items q) b.exercise)
unfolding schedule_batch in_order
schedule_batch-made c b now uuids q e = simp e

module _ (c : Catalog) (b : Batch) (now : ℕ) (existing made : List BenchmarkQueueItem)
    (exercise : String) (fresh : b.retry ≡ false) where
  skipped_before :
      (p : String × String)
      → is_skipped c b existing p.0 p.1 ≡ true
      → is_skipped c b (existing ++ made) p.0 p.1 ≡ true
  unfolding is_skipped is_queued
  skipped_before p h = ground (arith, any-append_left (same_key b.agent_name p.0 p.1) existing made)

  skipped_made :
      (p : String × String)
      → is_queued b.agent_name p.0 p.1 made ≡ true
      → is_skipped c b (existing ++ made) p.0 p.1 ≡ true
  unfolding is_skipped is_queued
  skipped_made p h =
      ground (arith, fresh, any-append_right (same_key b.agent_name p.0 p.1) existing made h)

plan_again :
    (c : Catalog) (b : Batch) (now : ℕ) (uuids : List String) (existing : List BenchmarkQueueItem)
    (exercise : String)
    → b.retry ≡ false
    → length (plan c b existing (some exercise)) ≤ length uuids
    → plan c b
        (existing ++ make_items b now uuids (plan c b existing (some exercise)))
        (some exercise)
      ≡ []
plan_again c b now uuids existing exercise fresh enough =
    let planned = plan c b existing (some exercise) in
    let made = make_items b now uuids planned in
    let keep : String × String → Bool = λ p. not (is_skipped c b existing p.0 p.1) in
    let again : String × String → Bool = λ p. not (is_skipped c b (existing ++ made) p.0 p.1) in
    let exact = plan_skipped c b existing exercise in
    let queued : All (λ p. is_skipped c b (existing ++ made) p.0 p.1 ≡ true) planned =
      All-map planned (skipped_made c b now existing made exercise fresh)
        (make_items-is_queued b now uuids planned enough) in
    let covered : All (λ p. again p ≡ false) (requested c b (some exercise)) =
      All-of_retain (λ p. again p ≡ false) keep (requested c b (some exercise))
        (All-map _ (λ p h. ap not h)
          (subst (All (λ p. is_skipped c b (existing ++ made) p.0 p.1 ≡ true)) exact queued))
        (λ p h. ap not (skipped_before c b now existing made exercise fresh p (not-false _ h))) in
    plan_skipped c b (existing ++ made) exercise
    ∙ retain-none again (requested c b (some exercise)) covered
  where
    not-false : (t : Bool) → not t ≡ false → t ≡ true
    not-false true h = refl
    not-false false h = absurd cc

pub make_items-nil : (b : Batch) (now : ℕ) (uuids : List String) → make_items b now uuids [] ≡ []
unfolding make_items
make_items-nil b now uuids = refl

schedule_twice-empty :
    (c : Catalog) (b : Batch) (now later : ℕ) (uuids others : List String) (q : InnerQueue)
    (exercise : String)
    → b.exercise ≡ some exercise
    → b.retry ≡ false
    → length (plan c b (get_pending_items q) b.exercise) ≤ length uuids
    → (schedule_batch c b later others (schedule_batch c b now uuids q).1).0 ≡ []
schedule_twice-empty c b now later uuids others q exercise named fresh enough =
    let q' = (schedule_batch c b now uuids q).1 in
    let again =
      plan_again c b now uuids (get_pending_items q) exercise fresh
        (subst (λ e. length (plan c b (get_pending_items q) e) ≤ length uuids) named enough) in
    schedule_batch-made c b later others (schedule_batch c b now uuids q).1 fresh
    ∙ ap (λ ps. make_items b later others ps)
        (ap (λ e. plan c b (get_pending_items q') e) named
          ∙ ap (λ xs. plan c b xs (some exercise))
              (schedule_batch_pending c b now uuids q
                ∙ ap (◌++◌ (get_pending_items q)) (
                    schedule_batch-made c b now uuids q fresh
                    ∙ ap (λ e. make_items b now uuids (plan c b (get_pending_items q) e)) named))
          ∙ again)
    ∙ make_items-nil b later others

schedule_batch-added :
    (c : Catalog) (b : Batch) (now : ℕ) (uuids : List String) (q : InnerQueue)
    → (schedule_batch c b now uuids q).1 ≡ add_all (schedule_batch c b now uuids q).0 q
unfolding schedule_batch
schedule_batch-added c b now uuids q = refl

-- Once a named exercise or group has been scheduled without a retry, with an id for every planned
-- pair, scheduling it again, with no call in between and the same stored results, returns no item and
-- leaves the queue as it is.
pub schedule_twice_adds_none :
    (c : Catalog) (b : Batch) (now later : ℕ) (uuids others : List String) (q : InnerQueue)
    (exercise : String)
    → b.exercise ≡ some exercise
    → b.retry ≡ false
    → length (plan c b (get_pending_items q) b.exercise) ≤ length uuids
    → schedule_batch c b later others (schedule_batch c b now uuids q).1
      ≡ ([], (schedule_batch c b now uuids q).1)
unfolding add_all
schedule_twice_adds_none c b now later uuids others q exercise named fresh enough =
    let q' = (schedule_batch c b now uuids q).1 in
    let none_made = schedule_twice-empty c b now later uuids others q exercise named fresh enough in
    ap (λ items. (items, (schedule_batch c b later others q').1)) none_made
    ∙ ap (λ r. ([], r))
        (schedule_batch-added c b later others q' ∙ ap (λ items. add_all items q') none_made)

full_ignores_pending :
    (c : Catalog) (b : Batch) (existing other : List BenchmarkQueueItem)
    → plan c b existing none ≡ plan c b other none
unfolding plan full_plan is_done
full_ignores_pending c b existing other = refl

-- A batch that names no exercise has the pairs of its first call added once more by the second, with
-- no retry asked for and an id for every planned pair in both.
pub schedule_full_twice :
    (c : Catalog) (b : Batch) (now later : ℕ) (uuids others : List String) (q : InnerQueue)
    → b.exercise ≡ none
    → b.retry ≡ false
    → length (plan c b (get_pending_items q) none) ≤ length uuids
    → length (plan c b (get_pending_items q) none) ≤ length others
    → map pair_of (schedule_batch c b later others (schedule_batch c b now uuids q).1).0
      ≡ map pair_of (schedule_batch c b now uuids q).0
schedule_full_twice c b now later uuids others q named fresh enough enough' =
    let q' = (schedule_batch c b now uuids q).1 in
    let first : map pair_of (schedule_batch c b now uuids q).0
        ≡ plan c b (get_pending_items q) none =
      ap (map pair_of) (
        schedule_batch-made c b now uuids q fresh
        ∙ ap (λ e. make_items b now uuids (plan c b (get_pending_items q) e)) named)
      ∙ make_items-pairs b now uuids (plan c b (get_pending_items q) none) enough in
    let second : map pair_of (schedule_batch c b later others q').0
        ≡ plan c b (get_pending_items q) none =
      ap (map pair_of) (
        schedule_batch-made c b later others q' fresh
        ∙ ap (λ e. make_items b later others (plan c b (get_pending_items q') e)) named
        ∙ ap (make_items b later others)
            (full_ignores_pending c b (get_pending_items q') (get_pending_items q)))
      ∙ make_items-pairs b later others (plan c b (get_pending_items q) none) enough' in
    second ∙ sym first
