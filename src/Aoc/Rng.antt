-- ===== src/Aoc/Rng.antt =====
-- The generator of random numbers of crates/benchmark-aoc2015/src/rng.rs: SplitMix64, whose state is
-- one number of 64 bits. A call returns its value and the new state; a `none` is a panic.
use Prim.Native.Nat.{bit_xor}
use native.Mathlib.Nat.{mod-lt}
use llm_benchmark.Common.{
  ℕ, zero, suc, ◌+◌, ◌-◌, ◌*◌, ◌/◌, ◌%◌, ◌^◌, ◌≤◌, ◌<◌, Bool, ◌≡◌, refl, ap, ◌∙◌, List, [], ◌∷◌,
  ◌++◌, Option, none, some, get_elem?, length, leb, ltb, Bool-cases, ◌⊎◌, inl, inr, if◌then◌else◌,
  arith, ◌==◌,
}
use llm_benchmark.Json.{◌>>=◌}
use llm_benchmark.Session.{ℤ, pos, negsuc}

abbrev pub u64 : ℕ
u64 = 18446744073709551616

-- `wrapping_add` and `wrapping_mul` of `u64`.
unfoldable pub wrapping_add : ℕ → ℕ → ℕ
wrapping_add a b = (a + b) % u64

unfoldable pub wrapping_mul : ℕ → ℕ → ℕ
wrapping_mul a b = a * b % u64

-- `z ^ (z >> n)`.
unfoldable pub xor_shift : ℕ → ℕ → ℕ
xor_shift z n = bit_xor z (z / 2 ^ n)

-- The mixing of `next_u64`.
unfoldable pub mix : ℕ → ℕ
unfolding xor_shift wrapping_mul
mix z =
    xor_shift
      (wrapping_mul (xor_shift (wrapping_mul (xor_shift z 30) 0xBF58476D1CE4E5B9) 27)
        0x94D049BB133111EB)
      31

-- `next_u64`.
unfoldable pub next_u64 : ℕ → ℕ × ℕ
unfolding mix wrapping_add
next_u64 state = let next = wrapping_add state 0x9E3779B97F4A7C15 in (mix next, next)

-- `below`: the assertion fails on 0.
unfoldable pub below : ℕ → ℕ → Option (ℕ × ℕ)
unfolding next_u64
below zero state = none
below (suc n) state = let (value, next) = next_u64 state in some (value % suc n, next)

-- `hi - lo`, if `lo <= hi`.
unfoldable pub width : ℤ → ℤ → Option ℕ
width (pos a) (pos b) = if leb a b then some (b - a) else none
width (pos a) (negsuc b) = none
width (negsuc a) (pos b) = some (suc a + b)
width (negsuc a) (negsuc b) = if leb b a then some (a - b) else none

unfoldable pub add_nat : ℤ → ℕ → ℤ
add_nat (pos a) k = pos (a + k)
add_nat (negsuc a) k = if leb k a then negsuc (a - k) else pos (k - suc a)

-- `hi - lo + 1` in `i64`, in a build that checks for overflow: it panics from 2^63 on.
unfoldable pub checked_width : ℕ → Option ℕ
checked_width w = if ltb (w + 1) (2 ^ 63) then some (w + 1) else none

-- `range` of two numbers of 64 bits: the assertion fails if `lo > hi`.
unfoldable pub range : ℤ → ℤ → ℕ → Option (ℤ × ℕ)
unfolding below width checked_width add_nat
range lo hi state = do
  w ← width lo hi
  n ← checked_width w
  r ← below n state
  some (add_nat lo r.0, r.1)

-- `coin`, `lowercase` and `digit`; characters are their codes.
unfoldable pub coin : ℕ → Option (Bool × ℕ)
unfolding below
coin state = below 2 state >>= λ r. some (r.0 == 1, r.1)

unfoldable pub lowercase : ℕ → Option (ℕ × ℕ)
unfolding below
lowercase state = below 26 state >>= λ r. some (97 + r.0, r.1)

unfoldable pub digit : ℕ → Option (ℕ × ℕ)
unfolding below
digit state = below 10 state >>= λ r. some (48 + r.0, r.1)

-- `pick`: the index is that of `below`, and an empty slice fails its assertion.
unfoldable pub pick {ℓ} : {A : Type ℓ} → List A → ℕ → Option (A × ℕ)
unfolding below
pick items state = do r ← below (length items) state; item ← get_elem? items r.0; some (item, r.1)

-- `seed`: FNV-1a over the bytes of the user, the year and the day, mixed once more.
unfoldable pub hash_bytes : List ℕ → ℕ → ℕ
unfolding wrapping_mul
hash_bytes [] h = h
hash_bytes (b ∷ bs) h = hash_bytes bs (wrapping_mul (bit_xor h b) 0x100000001b3)

unfoldable pub seed : List ℕ → ℕ → ℕ → ℕ
unfolding hash_bytes next_u64
seed user year day = (next_u64 (hash_bytes (user ++ year ∷ day ∷ []) 0xcbf29ce484222325)).0

next-bounded : (state : ℕ) → (next_u64 state).1 < u64
unfolding next_u64 wrapping_add
next-bounded state = mod-lt (state + 0x9E3779B97F4A7C15) (omega arith)

-- A draw below a positive number does not panic, is below it, and leaves a state of 64 bits.
pub below-bounded :
    (n state : ℕ)
    → (v : ℕ) × (next : ℕ) × (below (suc n) state ≡ some (v, next)) × (v < suc n) × (next < u64)
unfolding below
below-bounded n state = (_, _, refl, mod-lt (next_u64 state).0 (omega arith), next-bounded state)

-- A number at a distance from `lo` that is at most that of `hi`.
width-add_nat :
    (lo : ℤ) (hi : ℤ) (w v : ℕ)
    → width lo hi ≡ some w
    → v ≤ w
    → (width lo (add_nat lo v) ≡ some v) × (width (add_nat lo v) hi ≡ some (w - v))
unfolding width add_nat
width-add_nat (pos a) (pos b) w v e le = ground (arith, e, le)
width-add_nat (pos a) (negsuc b) w v e le = cc
width-add_nat (negsuc a) (pos b) w v e le = ground (arith, e, le)
width-add_nat (negsuc a) (negsuc b) w v e le = ground (arith, e, le)

add_one : (w : ℕ) → w + 1 ≡ suc w
add_one w = omega arith

-- In a build that checks for overflow, a draw from a range that is not empty either lies in the range,
-- which has less than 2^63 numbers, or panics, where it has more. In the first case the distances from
-- the lower bound to it and from it to the upper bound add up to the width, and the state keeps 64 bits.
pub range_within :
    (lo hi : ℤ) (w state : ℕ)
    → width lo hi ≡ some w
    → ((w + 1 < 2 ^ 63)
        × (x : ℤ) × (v : ℕ) × (next : ℕ) × (range lo hi state ≡ some (x, next))
        × (v ≤ w)
        × (width lo x ≡ some v)
        × (width x hi ≡ some (w - v))
        × (next < u64))
      ⊎ ((2 ^ 63 ≤ w + 1) × (range lo hi state ≡ none))
unfolding range checked_width
range_within lo hi w state e = elim (Bool-cases (ltb (w + 1) (2 ^ 63))) [
  | inr wide ↦ inr (ground (arith, wide), rw (e, range, checked_width, wide) refl)
  | inl fits ↦
      let (v, next, drawn, small, bounded) = below-bounded w state in
      let le : v ≤ w = omega (arith, small) in
      let (from_lo, to_hi) = width-add_nat lo hi w v e le in
      inl (
        ground (arith, fits),
        add_nat lo v,
        v,
        next,
        rw (e, range, checked_width, fits)
            (ap (λ k. below k state >>= λ r. some (add_nat lo r.0, r.1)) (add_one w)
              ∙ ap (λ o. o >>= λ r. some (add_nat lo r.0, r.1)) drawn),
        le,
        from_lo,
        to_hi,
        bounded,
      )
]
