-- ===== src/Stats/Measure.antt =====
-- The number of milliseconds that intervals cover, an independent measure of wall-clock time.
use llm_benchmark.Common.{
  ℕ, zero, suc, ◌+◌, ◌-◌, ◌≤◌, Bool, false, List, if◌then◌else◌, leb, ltb, ◌&&◌, ◌||◌, ◌≡◌, refl,
  any, arith,
}
use llm_benchmark.Stats.{TimeInterval}

-- How many numbers below the bound pass.
unfoldable pub count : (ℕ → Bool) → ℕ → ℕ
count test zero = 0
count test (suc n) = (if test n then 1 else 0) + count test n

abbrev pub within : ℕ → ℕ → ℕ → Bool
within s e t = leb s t && ltb t e

-- The interval, and one of the list, contains the time.
abbrev pub contains_time : ℕ → TimeInterval → Bool
contains_time t i = within i.start i.end t

abbrev pub covered : List TimeInterval → ℕ → Bool
covered is t = any (contains_time t) is

pub count-ext : (f g : ℕ → Bool) → ((t : ℕ) → f t ≡ g t) → (n : ℕ) → count f n ≡ count g n
unfolding count
count-ext f g h zero = refl
count-ext f g h (suc n) = rw (h n, count-ext f g h n) refl

pub count-disjoint :
    (f g : ℕ → Bool)
    → ((t : ℕ) → (f t && g t) ≡ false)
    → (n : ℕ) → count (λ t. f t || g t) n ≡ count f n + count g n
unfolding count
count-disjoint f g h zero = refl
count-disjoint f g h (suc n) = ground (arith, h n, count-disjoint f g h n)

pub count-nothing : (n : ℕ) → count (λ t. false) n ≡ 0
unfolding count
count-nothing zero = refl
count-nothing (suc n) = omega (arith, count-nothing n)

count-within_min : (s e n : ℕ) → count (within s e) n ≡ (if leb e n then e else n) - s
unfolding count
count-within_min s e zero = ground arith
count-within_min s e (suc n) = ground (arith, count-within_min s e n)

pub count-within : (s e n : ℕ) → e ≤ n → count (within s e) n ≡ e - s
count-within s e n le = ground (arith, le, count-within_min s e n)
