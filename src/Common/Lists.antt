-- ===== src/Common/Lists.antt =====
-- Lists measured and indexed by native numbers, under the library's names, and a predicate on all
-- the items of a list. No code of the repository is modelled here.
use Prim.Native.Nat.{ℕ, zero, suc, ◌+◌, ◌≤◌}
use mathlib.Core.Path.{◌≡◌, refl, ap}
use mathlib.Core.Logic.{inl, inr}
use mathlib.Core.Bool.{Bool, true, false}
use mathlib.Core.List.{List, [], ◌∷◌, ◌++◌}
use mathlib.Core.Option.{Option, none, some}
use native.Mathlib.Omega.{arith}
use llm_benchmark.Common.Tests.{if◌then◌else◌, Bool-cases}

module _ {ℓ} {A : Type ℓ} where
  abbrev pub length : List A → ℕ
  length [] = 0
  length (x ∷ xs) = suc (length xs)

  abbrev pub get_elem? : List A → ℕ → Option A
  get_elem? [] i = none
  get_elem? (x ∷ xs) zero = some x
  get_elem? (x ∷ xs) (suc i) = get_elem? xs i

  -- A write out of bounds changes nothing.
  abbrev pub set : List A → ℕ → A → List A
  set [] i v = []
  set (x ∷ xs) zero v = v ∷ xs
  set (x ∷ xs) (suc i) v = x ∷ set xs i v

  -- `Vec::retain` and `Iterator::filter`, with a Boolean test.
  abbrev pub retain : (A → Bool) → List A → List A
  retain keep [] = []
  retain keep (x ∷ xs) = if keep x then x ∷ retain keep xs else retain keep xs

  abbrev pub any : (A → Bool) → List A → Bool
  any test [] = false
  any test (x ∷ xs) = if test x then true else any test xs

  abbrev pub All {κ} : (A → Type κ) → List A → Type κ
  All P [] = Unit
  All P (x ∷ xs) = P x × All P xs

module _ {ℓ} {A : Type ℓ} where
  pub length-append : (xs ys : List A) → length (xs ++ ys) ≡ length xs + length ys
  length-append [] ys = omega arith
  length-append (x ∷ xs) ys = omega (arith, length-append xs ys)

  pub length-set : (xs : List A) (i : ℕ) (v : A) → length (set xs i v) ≡ length xs
  length-set [] i v = refl
  length-set (x ∷ xs) zero v = refl
  length-set (x ∷ xs) (suc i) v = ap suc (length-set xs i v)

  pub retain-append :
      (keep : A → Bool) (xs ys : List A) → retain keep (xs ++ ys) ≡ retain keep xs ++ retain keep ys
  retain-append keep [] ys = refl
  retain-append keep (x ∷ xs) ys = ground (arith, retain-append keep xs ys)

  pub length-retain-le : (keep : A → Bool) (xs : List A) → length (retain keep xs) ≤ length xs
  length-retain-le keep [] = omega arith
  length-retain-le keep (x ∷ xs) = ground (arith, length-retain-le keep xs)

  pub All-append {κ} : (P : A → Type κ) (xs ys : List A) → All P xs → All P ys → All P (xs ++ ys)
  All-append P [] ys h k = k
  All-append P (x ∷ xs) ys h k = (h.0, All-append P xs ys h.1 k)

  pub All-retain {κ} :
      (P : A → Type κ) (keep : A → Bool) (xs : List A) → All P xs → All P (retain keep xs)
  All-retain P keep [] h = tt
  All-retain P keep (x ∷ xs) h = elim (Bool-cases (keep x)) [
    | inl e ↦ rw e (h.0, All-retain P keep xs h.1)
    | inr e ↦ rw e (All-retain P keep xs h.1)
  ]

module _ {ℓ κ} {A : Type ℓ} (P : A → Type κ) (keep : A → Bool) where
  -- What holds of the items that are kept, and of those that are not, holds of all.
  pub All-of_retain :
      (xs : List A) → All P (retain keep xs) → ((x : A) → keep x ≡ false → P x) → All P xs
  All-of_retain [] h k = tt
  All-of_retain (x ∷ xs) h k = elim (Bool-cases (keep x)) [
    | inl e ↦ let both = rw e at h in (both.0, All-of_retain xs both.1 k)
    | inr e ↦ (k x e, All-of_retain xs (rw e at h) k)
  ]

module _ {ℓ} {A : Type ℓ} (keep : A → Bool) where
  pub retain-All : (xs : List A) → All (λ x. keep x ≡ true) xs → retain keep xs ≡ xs
  retain-All [] h = refl
  retain-All (x ∷ xs) h = rw h.0 (ap (◌∷◌ x) (retain-All xs h.1))

  pub retain-none : (xs : List A) → All (λ x. keep x ≡ false) xs → retain keep xs ≡ []
  retain-none [] h = refl
  retain-none (x ∷ xs) h = rw h.0 (retain-none xs h.1)

  pub any-append_left : (xs ys : List A) → any keep xs ≡ true → any keep (xs ++ ys) ≡ true
  any-append_left [] ys h = cc
  any-append_left (x ∷ xs) ys h = ground (arith, any-append_left xs ys)

  pub any-append_right : (xs ys : List A) → any keep ys ≡ true → any keep (xs ++ ys) ≡ true
  any-append_right [] ys h = h
  any-append_right (x ∷ xs) ys h = ground (arith, any-append_right xs ys h)

pub All-map {ℓ κ μ} :
    {A : Type ℓ} {P : A → Type κ} {Q : A → Type μ} (xs : List A)
    → ((x : A) → P x → Q x)
    → All P xs
    → All Q xs
All-map [] f h = tt
All-map (x ∷ xs) f h = (f x h.0, All-map xs f h.1)
