-- ===== src/Queue/Ids.antt =====
-- The ids and states that a list of queue items shows, how an append changes them, and what a search
-- by id finds. Lemmas for benchmark-web/src/models/queue.rs.
use llm_benchmark.Common.{
  true, false, String, ◌≡◌, refl, sym, ap, ◌∙◌, inl, inr, List, [], ◌∷◌, ◌++◌, Option, none, some,
  if◌then◌else◌, not, arith, str_eq, eq_iff, str-cases, is_some, retain, any,
}
use llm_benchmark.Status.{QueueItemStatus, is_pending}
use llm_benchmark.Item.{BenchmarkQueueItem}
use llm_benchmark.Queue.Entries.{has_id, find_id}

abbrev pub Items : Type 0
Items = List BenchmarkQueueItem

abbrev pub ids : Items → List String
ids [] = []
ids (x ∷ xs) = x.id ∷ ids xs

-- The ids of the pending items, oldest first.
abbrev pub pending_ids : Items → List String
pending_ids [] = []
pending_ids (x ∷ xs) = if is_pending x.status then x.id ∷ pending_ids xs else pending_ids xs

-- The state that the first item with the id has.
abbrev pub status_at : String → Items → Option QueueItemStatus
status_at k [] = none
status_at k (x ∷ xs) = if has_id k x then some x.status else status_at k xs

-- No id of the list is `k`.
abbrev pub Fresh : String → List String → Type 0
Fresh k [] = Unit {0}
Fresh k (j ∷ js) = (str_eq j k ≡ false) × Fresh k js

abbrev pub Distinct : List String → Type 0
Distinct [] = Unit {0}
Distinct (j ∷ js) = Fresh j js × Distinct js

abbrev pub drop_id : String → List String → List String
drop_id k = retain (λ j. not (str_eq j k))

pub str_eq_sym : (s t : String) → str_eq s t ≡ str_eq t s
str_eq_sym s t = elim (str-cases s t) [
  | inl (e, h) ↦ rw e
  | inr (ne, h) ↦ elim (str-cases t s) [ inl (e, k) ↦ absurd (ne (sym e)) | inr (_, k) ↦ h ∙ sym k ]
]

pub drop_id-of_Fresh : (k : String) (js : List String) → Fresh k js → drop_id k js ≡ js
drop_id-of_Fresh k [] h = refl
drop_id-of_Fresh k (j ∷ js) h = rw h.0 (ap (◌∷◌ j) (drop_id-of_Fresh k js h.1))

pub Fresh-drop_id : (k j : String) (js : List String) → Fresh k js → Fresh k (drop_id j js)
Fresh-drop_id k j [] h = tt
Fresh-drop_id k j (i ∷ js) h = ground (arith, Fresh-drop_id k j js h.1)

pub Fresh-pending_ids : (k : String) (xs : Items) → Fresh k (ids xs) → Fresh k (pending_ids xs)
Fresh-pending_ids k [] h = tt
Fresh-pending_ids k (x ∷ xs) h = ground (arith, Fresh-pending_ids k xs h.1)

pub Distinct-pending_ids : (xs : Items) → Distinct (ids xs) → Distinct (pending_ids xs)
Distinct-pending_ids [] h = tt
Distinct-pending_ids (x ∷ xs) h =
    ground (arith, Distinct-pending_ids xs h.1, Fresh-pending_ids x.id xs h.0)

pub Fresh-append :
    (k j : String) (js : List String) → Fresh k js → str_eq j k ≡ false → Fresh k (js ++ j ∷ [])
Fresh-append k j [] h e = (e, tt)
Fresh-append k j (i ∷ js) h e = (h.0, Fresh-append k j js h.1 e)

pub Distinct-append :
    (j : String) (js : List String) → Distinct js → Fresh j js → Distinct (js ++ j ∷ [])
Distinct-append j [] d f = (tt, tt)
Distinct-append j (i ∷ js) d f =
    (Fresh-append i j js d.0 (str_eq_sym j i ∙ f.0), Distinct-append j js d.1 f.1)

pub ids-append : (xs : Items) (x : BenchmarkQueueItem) → ids (xs ++ x ∷ []) ≡ ids xs ++ x.id ∷ []
ids-append [] x = refl
ids-append (y ∷ xs) x = ap (◌∷◌ y.id) (ids-append xs x)

pub pending_ids-append :
    (xs : Items) (x : BenchmarkQueueItem)
    → is_pending x.status ≡ true
    → pending_ids (xs ++ x ∷ []) ≡ pending_ids xs ++ x.id ∷ []
pending_ids-append [] x p = rw p
pending_ids-append (y ∷ xs) x p = ground (arith, pending_ids-append xs x p)

pub status_at-append :
    (k : String) (xs : Items) (x : BenchmarkQueueItem) (s : QueueItemStatus)
    → status_at k xs ≡ some s
    → status_at k (xs ++ x ∷ []) ≡ some s
status_at-append k [] x s e = cc
status_at-append k (y ∷ xs) x s e = ground (arith, status_at-append k xs x s)

-- An id whose state is known is not fresh, and one that is fresh has no state.
pub status_at-of_Fresh : (k : String) (xs : Items) → Fresh k (ids xs) → status_at k xs ≡ none
status_at-of_Fresh k [] h = refl
status_at-of_Fresh k (x ∷ xs) h = rw h.0 (status_at-of_Fresh k xs h.1)

-- An id whose first item is not pending is not among the pending ids.
pub Fresh-of_status_at :
    (k : String) (xs : Items) (s : QueueItemStatus)
    → Distinct (ids xs)
    → status_at k xs ≡ some s
    → is_pending s ≡ false
    → Fresh k (pending_ids xs)
Fresh-of_status_at k [] s d e p = tt
Fresh-of_status_at k (x ∷ xs) s d e p = elim (str-cases x.id k) [
  | inl (same, t) ↦
      let s' : x.status ≡ s = ground arith in rw (s', p) (Fresh-pending_ids k xs (rw same at d.0))
  | inr (_, t) ↦ ground (arith, Fresh-of_status_at k xs s d.1)
]

-- What the search by id finds.
pub status_at-find_id :
    (k : String) (xs : Items) {s : QueueItemStatus}
    → status_at k xs ≡ some s
    → (x : BenchmarkQueueItem) × (find_id k xs ≡ some x) × (x.status ≡ s) × (x.id ≡ k)
unfolding find_id
status_at-find_id k [] e = cc
status_at-find_id k (x ∷ xs) {s} e = elim (str-cases x.id k) [
  | inl (same, t) ↦ (x, rw t, ground arith, same)
  | inr (_, t) ↦ rw t (status_at-find_id k xs (rw t at e))
]

pub any-has_id : (k : String) (xs : Items) → any (has_id k) xs ≡ is_some (status_at k xs)
any-has_id k [] = refl
any-has_id k (x ∷ xs) = ground (arith, any-has_id k xs)

-- A state that waits is PENDING.
pub pending-of_is_pending :
    (s : QueueItemStatus) → is_pending s ≡ true → s ≡ QueueItemStatus.pending
pending-of_is_pending QueueItemStatus.pending h = refl
pending-of_is_pending QueueItemStatus.running h = cc
pending-of_is_pending QueueItemStatus.completed h = cc
pending-of_is_pending QueueItemStatus.failed h = cc
pending-of_is_pending QueueItemStatus.cancelled h = cc

-- The first pending id belongs to an item that is PENDING.
pub status_at-pending_front :
    (k : String) (js : List String) (xs : Items)
    → Distinct (ids xs)
    → k ∷ js ≡ pending_ids xs
    → status_at k xs ≡ some QueueItemStatus.pending
status_at-pending_front k js [] d e = cc
status_at-pending_front k js (x ∷ xs) d e = ground (
  arith,
  eq_iff x.id k,
  str_eq_sym k x.id,
  Fresh-pending_ids x.id xs d.0,
  pending-of_is_pending x.status,
  status_at-pending_front k js xs d.1,
  later,
)
  where
    later : k ∷ js ≡ pending_ids xs → str_eq k x.id ≡ false
    later p = (rw (← p) at (Fresh-pending_ids x.id xs d.0)).0
