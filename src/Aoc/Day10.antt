-- ===== src/Aoc/Day10.antt =====
-- The puzzle of day 10, look-and-say: crates/benchmark-aoc2015/src/days/day10.rs. Texts are lists of
-- bytes; `show` is the decimal of a number.
use llm_benchmark.Common.{
  ℕ, zero, suc, Bool, false, ◌≡◌, refl, sym, ap, ◌∙◌, inl, inr, List, [], ◌∷◌, ◌++◌, if◌then◌else◌,
  arith, ◌==◌, Bool-cases, ltb, ◌+◌, ◌/◌, ◌%◌, ◌<◌, All, subst,
}

-- The outer loop at a byte, with the length of its run so far: the inner loop goes on while the bytes
-- are equal.
unfoldable pub runs_from : ℕ → ℕ → List ℕ → List (ℕ × ℕ)
runs_from b n [] = (n, b) ∷ []
runs_from b n (c ∷ cs) = if c == b then runs_from b (suc n) cs else (n, b) ∷ runs_from c 1 cs

unfoldable pub runs_of : List ℕ → List (ℕ × ℕ)
unfolding runs_from
runs_of [] = []
runs_of (b ∷ bs) = runs_from b 1 bs

-- The UTF-8 of `byte as char`: two bytes from 128 on.
unfoldable pub char_bytes : ℕ → List ℕ
char_bytes b = if ltb b 128 then b ∷ [] else (192 + b / 64) ∷ (128 + b % 64) ∷ []

unfoldable pub write_runs : (show : ℕ → List ℕ) → List (ℕ × ℕ) → List ℕ
unfolding char_bytes
write_runs show [] = []
write_runs show ((n, b) ∷ runs) = show n ++ (char_bytes b ++ write_runs show runs)

-- `look_and_say`.
unfoldable pub look_and_say : (show : ℕ → List ℕ) → List ℕ → List ℕ
unfolding runs_of write_runs
look_and_say show s = write_runs show (runs_of s)

-- `n` times the byte, then others.
abbrev pub repeat_then : ℕ → ℕ → List ℕ → List ℕ
repeat_then zero b rest = rest
repeat_then (suc n) b rest = b ∷ repeat_then n b rest

abbrev pub heads : ℕ → List ℕ → Bool
heads b [] = false
heads b (c ∷ cs) = c == b

-- What is said of a text: each of its maximal runs, by its length and its byte.
pub data Says (show : ℕ → List ℕ) : List ℕ → List ℕ → Type 0 where
  nothing : Says show [] []
  run :
      {rest said : List ℕ} (n b : ℕ)
      → heads b rest ≡ false
      → Says show rest said
      → Says show (repeat_then (suc n) b rest) (show (suc n) ++ (b ∷ said))

repeat_then-shift :
    (n b : ℕ) (rest : List ℕ) → repeat_then n b (b ∷ rest) ≡ b ∷ repeat_then n b rest
repeat_then-shift zero b rest = refl
repeat_then-shift (suc n) b rest = ap (◌∷◌ b) (repeat_then-shift n b rest)

char_bytes_ascii : (b : ℕ) → b < 128 → char_bytes b ≡ b ∷ []
unfolding char_bytes
char_bytes_ascii b small = ground (arith, small)

module _ (show : ℕ → List ℕ) where
  said_from :
      (b n : ℕ) (cs : List ℕ)
      → b < 128
      → All (λ c. c < 128) cs
      → Says show (repeat_then (suc n) b cs) (write_runs show (runs_from b (suc n) cs))
  unfolding runs_from write_runs
  said_from b n [] small ascii = rw (write_runs, char_bytes_ascii b small) (run n b refl nothing)
  said_from b n (c ∷ cs) small ascii = elim (Bool-cases (c == b)) [
    | inl e ↦
        let same : c ≡ b = ground (arith, e) in
        rw e (
          subst (λ t. Says show t (write_runs show (runs_from b (suc (suc n)) cs)))
            (ap (◌∷◌ b) (sym (ap (λ x. repeat_then n b (x ∷ cs)) same ∙ repeat_then-shift n b cs)))
            (said_from b (suc n) cs small ascii.1))
    | inr e ↦
        rw (e, write_runs, char_bytes_ascii b small) (run n b e (said_from c 0 cs ascii.0 ascii.1))
  ]

-- Of a text of ASCII characters look-and-say says each maximal run, in their order: its length in
-- decimals, and then its character.
pub look_and_say_says :
    (show : ℕ → List ℕ) (s : List ℕ) → All (λ c. c < 128) s → Says show s (look_and_say show s)
unfolding look_and_say runs_of write_runs
look_and_say_says show [] ascii = nothing
look_and_say_says show (b ∷ bs) ascii = said_from show b 0 bs ascii.0 ascii.1
