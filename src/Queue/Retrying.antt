-- ===== src/Queue/Retrying.antt =====
-- `retry_item` of benchmark-web/src/models/queue.rs, with `retry` of
-- benchmark-web/src/models/queue_item.rs: what is queued again, and under which id.
use llm_benchmark.Common.{
  true, String, ◌≡◌, refl, sym, ap, ◌∙◌, inl, inr, [], ◌∷◌, ◌++◌, none, some, arith, eq_iff,
  str-cases, Option-cases,
}
use llm_benchmark.Status.{QueueItemStatus, is_failed}
use llm_benchmark.Item.{BenchmarkQueueItem, retry_left, retry_returned}
use llm_benchmark.Queue.Ids.{Items, ids, status_at, Fresh, Distinct, ids-append, status_at-append}
use llm_benchmark.Queue.{InnerQueue, add, retry_item, retry_scan, retry_add}
use llm_benchmark.Queue.Invariant.{Inv}

failed-of_is_failed : (s : QueueItemStatus) → is_failed s ≡ true → s ≡ QueueItemStatus.failed
failed-of_is_failed QueueItemStatus.pending h = cc
failed-of_is_failed QueueItemStatus.running h = cc
failed-of_is_failed QueueItemStatus.completed h = cc
failed-of_is_failed QueueItemStatus.failed h = refl
failed-of_is_failed QueueItemStatus.cancelled h = cc

-- What the search of `retry_item` finds.
record Found (k : String) (xs ys : Items) (item : BenchmarkQueueItem) : Type 0 where
  pub was_failed : item.status ≡ QueueItemStatus.failed
  pub at_id : item.id ≡ k
  pub same_ids : ids ys ≡ ids xs

retry_scan-Found :
    (k : String) (xs : Items) (item : BenchmarkQueueItem)
    → (retry_scan k xs).0 ≡ some item
    → Found k xs (retry_scan k xs).1 item
unfolding retry_scan retry_left retry_returned
retry_scan-Found k [] item e = cc
retry_scan-Found k (x ∷ xs) item e =
    ground (arith, eq_iff x.id k, failed-of_is_failed x.status, retry_scan-Found k xs item)

retry_scan-of_Fresh : (k : String) (xs : Items) → Fresh k (ids xs) → (retry_scan k xs).0 ≡ none
unfolding retry_scan
retry_scan-of_Fresh k [] f = refl
retry_scan-of_Fresh k (x ∷ xs) f = ground (arith, retry_scan-of_Fresh k xs f.1)

-- With one entry for each id, the entry that is found is then PENDING.
retry_scan_status :
    (k : String) (xs : Items) (item : BenchmarkQueueItem)
    → Distinct (ids xs)
    → (retry_scan k xs).0 ≡ some item
    → status_at k (retry_scan k xs).1 ≡ some QueueItemStatus.pending
unfolding retry_scan retry_left retry_returned
retry_scan_status k [] item d e = cc
retry_scan_status k (x ∷ xs) item d e = elim (str-cases x.id k) [
  | inl (same, t) ↦ ground (arith, t, retry_scan-of_Fresh k xs (rw same at d.0))
  | inr (_, t) ↦ ground (arith, t, retry_scan_status k xs item d.1)
]

retry_item-found :
    (k : String) (q : InnerQueue) (item : BenchmarkQueueItem)
    → (retry_scan k q.all_items).0 ≡ some item
    → retry_item k q ≡ (some item, add item (record q { all_items = (retry_scan k q.all_items).1 }))
unfolding retry_item retry_add
retry_item-found k q item e = rw (e, retry_add) refl

retry_item-scan : (k : String) (q : InnerQueue) → (retry_item k q).0 ≡ (retry_scan k q.all_items).0
unfolding retry_item retry_add
retry_item-scan k q = elim (Option-cases (retry_scan k q.all_items).0) [
  | inl e ↦ rw (e, retry_add) refl
  | inr (item, e) ↦ rw (e, retry_add) refl
]

-- A retry resets the entry of the failed item to PENDING, and queues another item, the last one of
-- the line, which has the same id and is still FAILED; that item is also listed a second time.
pub retry_item_queues_failed :
    (k : String) (q : InnerQueue) (item : BenchmarkQueueItem)
    → Inv q
    → (retry_item k q).0 ≡ some item
    → let r = (retry_item k q).1 in
      (item.status ≡ QueueItemStatus.failed)
      × (item.id ≡ k)
      × (r.inner ≡ q.inner ++ item ∷ [])
      × (status_at k r.all_items ≡ some QueueItemStatus.pending)
      × (ids r.all_items ≡ ids q.all_items ++ k ∷ [])
unfolding add
retry_item_queues_failed k q item v e =
    let scan : (retry_scan k q.all_items).0 ≡ some item = sym (retry_item-scan k q) ∙ e in
    let found = retry_scan-Found k q.all_items item scan in
    let pending = retry_scan_status k q.all_items item v.distinct scan in
    rw (retry_item-found k q item scan) (
      found.was_failed,
      found.at_id,
      refl,
      status_at-append k (retry_scan k q.all_items).1 item QueueItemStatus.pending pending,
      ids-append (retry_scan k q.all_items).1 item
          ∙ rw found.at_id (ap (λ js. js ++ k ∷ []) found.same_ids),
    )
