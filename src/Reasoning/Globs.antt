-- ===== src/Reasoning/Globs.antt =====
-- The glob patterns of crates/benchmark-types/src/reasoning.rs against what their `*` is documented
-- to mean, a relation of its own.
use llm_benchmark.Common.{
  ℕ, true, false, List, [], ◌∷◌, ◌++◌, ◌==◌, ◌≡◌, refl, sym, ap, Bool-cases, inl, inr, ◌≢◌, subst,
}
use llm_benchmark.Reasoning.Patterns.{Chars, push_head, split_star}

-- `*` stands for any sequence of characters, the empty one included, and any other character for
-- itself.
pub data Glob : Chars → Chars → Type 0 where
  done : Glob [] []
  literal : {c : ℕ} {p t : Chars} → (c == b'*') ≡ false → Glob p t → Glob (c ∷ p) (c ∷ t)
  star_none : {c : ℕ} {p t : Chars} → (c == b'*') ≡ true → Glob p t → Glob (c ∷ p) t
  star_more : {c d : ℕ} {p t : Chars} → (c == b'*') ≡ true → Glob (c ∷ p) t → Glob (c ∷ p) (d ∷ t)

-- The text is the parts in their order, with anything between two of them.
abbrev pub Matches : List Chars → Chars → Type 0
Matches [] t = t ≡ []
Matches (p ∷ []) t = t ≡ p
Matches (p ∷ q ∷ ps) t = (g : Chars) × (r : Chars) × (t ≡ p ++ (g ++ r)) × Matches (q ∷ ps) r

Matches-push_head :
    (c : ℕ) (ps : List Chars) (t : Chars) → Matches ps t → Matches (push_head c ps) (c ∷ t)
unfolding push_head
Matches-push_head c [] t h = ap (◌∷◌ c) h
Matches-push_head c (p ∷ []) t h = ap (◌∷◌ c) h
Matches-push_head c (p ∷ q ∷ ps) t (g, r, e, h) = (g, r, ap (◌∷◌ c) e, h)

Matches-gap : (ps : List Chars) (t : Chars) → ps ≢ [] → Matches ps t → Matches ([] ∷ ps) t
Matches-gap [] t n h = absurd (n refl)
Matches-gap (p ∷ ps) t n h = ([], t, refl, h)

Matches-more :
    (ps : List Chars) (d : ℕ) (t : Chars)
    → ps ≢ []
    → Matches ([] ∷ ps) t
    → Matches ([] ∷ ps) (d ∷ t)
Matches-more [] d t n h = absurd (n refl)
Matches-more (p ∷ ps) d t n (g, r, e, h) = (d ∷ g, r, ap (◌∷◌ d) e, h)

cons_nil {ℓ} : {A : Type ℓ} {x : A} {xs : List A} → ◌≢◌ {A = List A} (x ∷ xs) []
cons_nil p = cc

push_head-nonempty : (c : ℕ) (ps : List Chars) → push_head c ps ≢ []
unfolding push_head
push_head-nonempty c [] = cons_nil
push_head-nonempty c (p ∷ ps) = cons_nil

pub split_star-nonempty : (p : Chars) → split_star p ≢ []
unfolding split_star
split_star-nonempty [] = cons_nil
split_star-nonempty (c ∷ s) = elim (Bool-cases (c == b'*')) [
  | inl e ↦ rw e cons_nil
  | inr e ↦ rw e (push_head-nonempty c (split_star s))
]

pub Glob-Matches : (p t : Chars) → Glob p t → Matches (split_star p) t
unfolding split_star
Glob-Matches _ _ Glob.done = refl
Glob-Matches _ _ (Glob.literal {c = c} {p = p} {t = t} e h) =
    rw e (Matches-push_head c (split_star p) t (Glob-Matches p t h))
Glob-Matches _ _ (Glob.star_none {p = p} {t = t} e h) =
    rw e (Matches-gap (split_star p) t (split_star-nonempty p) (Glob-Matches p t h))
Glob-Matches _ _ (Glob.star_more {c = c} {d = d} {p = p} {t = t} e h) =
    rw e
      (Matches-more (split_star p) d t (split_star-nonempty p) (rw e at (Glob-Matches (c ∷ p) t h)))

Matches-of_gap :
    (ps : List Chars) (t : Chars)
    → ps ≢ []
    → Matches ([] ∷ ps) t
    → (g : Chars) × (r : Chars) × (t ≡ g ++ r) × Matches ps r
Matches-of_gap [] t n h = absurd (n refl)
Matches-of_gap (p ∷ ps) t n h = h

Matches-of_push_head :
    (c : ℕ) (ps : List Chars) (t : Chars)
    → ps ≢ []
    → Matches (push_head c ps) t
    → (r : Chars) × (t ≡ c ∷ r) × Matches ps r
unfolding push_head
Matches-of_push_head c [] t n h = absurd (n refl)
Matches-of_push_head c (p ∷ []) t n h = (p, h, refl)
Matches-of_push_head c (p ∷ q ∷ ps) t n (g, r, e, h) = (p ++ (g ++ r), e, (g, r, refl, h))

Glob-star : (c : ℕ) (p g r : Chars) → (c == b'*') ≡ true → Glob p r → Glob (c ∷ p) (g ++ r)
Glob-star c p [] r e h = Glob.star_none e h
Glob-star c p (d ∷ g) r e h = Glob.star_more e (Glob-star c p g r e h)

pub Matches-Glob : (p t : Chars) → Matches (split_star p) t → Glob p t
unfolding split_star
Matches-Glob [] t h = subst (Glob []) (sym h) Glob.done
Matches-Glob (c ∷ p) t h = elim (Bool-cases (c == b'*')) [
  | inl e ↦
      let (g, r, et, m) = Matches-of_gap (split_star p) t (split_star-nonempty p) (rw e at h) in
      subst (Glob (c ∷ p)) (sym et) (Glob-star c p g r e (Matches-Glob p r m))
  | inr e ↦
      let (r, et, m) =
        Matches-of_push_head c (split_star p) t (split_star-nonempty p) (rw e at h) in
      subst (Glob (c ∷ p)) (sym et) (Glob.literal e (Matches-Glob p r m))
]
