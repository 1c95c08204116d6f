-- ===== src/Queue/Entries.antt =====
-- Lists of queue items looked up by id: the loops `for existing in all_items.iter_mut()` that stop
-- at the first match, and the hash map of running items, of benchmark-web/src/models/queue.rs.
use llm_benchmark.Common.{
  Bool, String, ◌≡◌, refl, List, [], ◌∷◌, Option, none, some, if◌then◌else◌, arith, str_eq, eq_iff,
}
use llm_benchmark.Item.{BenchmarkQueueItem}

abbrev pub has_id : String → BenchmarkQueueItem → Bool
has_id item_id item = str_eq item.id item_id

-- The loop that changes the first item with the id and breaks.
unfoldable pub update_first :
    String
    → (BenchmarkQueueItem → BenchmarkQueueItem)
    → List BenchmarkQueueItem
    → List BenchmarkQueueItem
update_first item_id f [] = []
update_first item_id f (item ∷ items) =
    if has_id item_id item then f item ∷ items else item ∷ update_first item_id f items

-- `iter().find(|item| item.id == item_id)`.
unfoldable pub find_id : String → List BenchmarkQueueItem → Option BenchmarkQueueItem
find_id item_id [] = none
find_id item_id (item ∷ items) = if has_id item_id item then some item else find_id item_id items

-- The hash map of running items.
module _ {ℓ} {V : Type ℓ} where
  unfoldable pub get_entry : String → List (String × V) → Option V
  get_entry k [] = none
  get_entry k ((j, v) ∷ m) = if str_eq j k then some v else get_entry k m

  unfoldable pub insert_entry : String → V → List (String × V) → List (String × V)
  insert_entry k v [] = (k, v) ∷ []
  insert_entry k v ((j, w) ∷ m) = if str_eq j k then (k, v) ∷ m else (j, w) ∷ insert_entry k v m

  unfoldable pub remove_entry : String → List (String × V) → List (String × V)
  remove_entry k [] = []
  remove_entry k ((j, w) ∷ m) = if str_eq j k then remove_entry k m else (j, w) ∷ remove_entry k m

  pub get_entry-insert_entry :
      (k j : String) (v : V) (m : List (String × V))
      → get_entry j (insert_entry k v m) ≡ (if str_eq k j then some v else get_entry j m)
  unfolding get_entry insert_entry
  get_entry-insert_entry k j v [] = refl
  get_entry-insert_entry k j v ((i, w) ∷ m) =
      ground (arith, eq_iff k j, eq_iff i k, eq_iff i j, get_entry-insert_entry k j v m)

  pub get_entry-remove_entry :
      (k j : String) (m : List (String × V))
      → get_entry j (remove_entry k m) ≡ (if str_eq k j then none else get_entry j m)
  unfolding get_entry remove_entry
  get_entry-remove_entry k j [] = ground arith
  get_entry-remove_entry k j ((i, w) ∷ m) =
      ground (arith, eq_iff k j, eq_iff i k, eq_iff i j, get_entry-remove_entry k j m)
