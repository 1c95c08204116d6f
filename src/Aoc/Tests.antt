-- ===== src/Aoc/Tests.antt =====
-- The puzzles of crates/benchmark-aoc2015 on small inputs.
use llm_benchmark.Common.{
  ℕ, ◌+◌, ◌-◌, ◌≤◌, ◌<◌, ◌≡◌, refl, List, [], ◌∷◌, some, none, ◌^◌, ◌⊎◌, arith,
}
use llm_benchmark.Session.{ℤ, pos, negsuc}
use llm_benchmark.Aoc.Rng.{u64, width, range, range_within, next_u64}
use llm_benchmark.Aoc.Day10.{Says, look_and_say, look_and_say_says}

-- The first value of SplitMix64 from the state 0.
first_value : (next_u64 0).0 ≡ 0xE220A8397B1DCDAF
unfolding next_u64
first_value = refl

-- The bytes of 0 to 9.
abbrev digits : ℕ → List ℕ
digits n = (48 + n) ∷ []

-- "1211" gives "111221".
said : look_and_say digits (49 ∷ 50 ∷ 49 ∷ 49 ∷ []) ≡ 49 ∷ 49 ∷ 49 ∷ 50 ∷ 50 ∷ 49 ∷ []
unfolding look_and_say
said = refl

look_and_say_says_example :
    Says digits (49 ∷ 50 ∷ 49 ∷ 49 ∷ []) (look_and_say digits (49 ∷ 50 ∷ 49 ∷ 49 ∷ []))
look_and_say_says_example =
    look_and_say_says digits (49 ∷ 50 ∷ 49 ∷ 49 ∷ [])
      (omega arith, (omega arith, (omega arith, (omega arith, tt))))

range_within_example :
    ((16 + 1 < 2 ^ 63)
      × (x : ℤ) × (v : ℕ) × (next : ℕ) × (range (negsuc 7) (pos 8) 42 ≡ some (x, next))
      × (v ≤ 16)
      × (width (negsuc 7) x ≡ some v)
      × (width x (pos 8) ≡ some (16 - v))
      × (next < u64))
    ⊎ ((2 ^ 63 ≤ 16 + 1) × (range (negsuc 7) (pos 8) 42 ≡ none))
unfolding width
range_within_example = range_within (negsuc 7) (pos 8) 16 42 refl
