-- ===== src/Session/Heaps.antt =====
-- The shared cells behind the `Arc`s of benchmark-web/src/models/session.rs and of
-- crates/benchmark-types/src/cancellation.rs, by address.
use llm_benchmark.Common.{
  ℕ, zero, suc, ◌<◌, Bool, true, false, String, ◌≡◌, ◌≢◌, refl, ap, List, [], ◌∷◌, ◌++◌, arith,
  length, set,
}

pub record Heap : Type 0 where
  pub buffers : List (List String)
  pub channels : List (List String)
  pub flags : List Bool

-- The vector without its first item: `remove(0)`.
abbrev pub drop_first {ℓ} : {A : Type ℓ} → List A → List A
drop_first [] = []
drop_first (x ∷ xs) = xs

-- A change of the cell at an address.
unfoldable pub modify {ℓ} : {A : Type ℓ} → (A → A) → ℕ → List A → List A
modify f i [] = []
modify f zero (x ∷ xs) = f x ∷ xs
modify f (suc i) (x ∷ xs) = x ∷ modify f i xs

-- `AtomicBool::load` and `store(true)`, and a new flag.
abbrev pub get_flag : ℕ → List Bool → Bool
get_flag i [] = false
get_flag zero (b ∷ bs) = b
get_flag (suc i) (b ∷ bs) = get_flag i bs

unfoldable pub is_cancelled : ℕ → Heap → Bool
is_cancelled token h = get_flag token h.flags

unfoldable pub cancel_token : ℕ → Heap → Heap
cancel_token token h = record h { flags = set h.flags token true }

unfoldable pub new_token : Heap → ℕ × Heap
new_token h = (length h.flags, record h { flags = h.flags ++ false ∷ [] })

pub get_flag-set_self : (bs : List Bool) (i : ℕ) → i < length bs → get_flag i (set bs i true) ≡ true
get_flag-set_self [] i h = elim h [ ]
get_flag-set_self (b ∷ bs) zero h = refl
get_flag-set_self (b ∷ bs) (suc i) h = get_flag-set_self bs i (omega arith)

pub get_flag-set_ne :
    (bs : List Bool) (i j : ℕ) → i ≢ j → get_flag j (set bs i true) ≡ get_flag j bs
get_flag-set_ne [] i j h = refl
get_flag-set_ne (b ∷ bs) zero zero h = absurd (h refl)
get_flag-set_ne (b ∷ bs) zero (suc j) h = refl
get_flag-set_ne (b ∷ bs) (suc i) zero h = refl
get_flag-set_ne (b ∷ bs) (suc i) (suc j) h = get_flag-set_ne bs i j (λ e. h (ap suc e))

pub get_flag-append : (bs : List Bool) (i : ℕ) → get_flag i (bs ++ false ∷ []) ≡ get_flag i bs
get_flag-append [] zero = refl
get_flag-append [] (suc i) = refl
get_flag-append (b ∷ bs) zero = refl
get_flag-append (b ∷ bs) (suc i) = get_flag-append bs i
