-- ===== src/Reasoning/Exact.antt =====
-- `pattern_matches` of crates/benchmark-types/src/reasoning.rs against the meaning of a glob pattern.
use mathlib.Core.List.{append-nil}
use llm_benchmark.Common.{
  ℕ, true, false, String, List, [], ◌∷◌, ◌++◌, ◌==◌, ◌≡◌, refl, sym, ap, ◌∙◌, Bool-cases,
  Option-cases, inl, inr, ◌↔◌, ◌≢◌, arith, not_both,
}
use llm_benchmark.Reasoning.Patterns.{
  Chars, codes, contains, strip_prefix, find_after, is_empty_part, push_head, split_star,
  match_parts, match_split, pattern_matches,
}
use llm_benchmark.Reasoning.Globs.{Glob, Matches, Glob-Matches, Matches-Glob, split_star-nonempty}
use llm_benchmark.Reasoning.Greedy.{
  strip_prefix-rest, find_after-rest, is_empty_part-eq, match_split_complete,
}

-- The last part is empty.
abbrev EndsEmpty : List Chars → Type 0
EndsEmpty [] = ⊥
EndsEmpty (p ∷ []) = p ≡ []
EndsEmpty (p ∷ q ∷ ps) = EndsEmpty (q ∷ ps)

-- There are several parts, of which the last is empty.
abbrev EndsOpen : List Chars → Type 0
EndsOpen [] = ⊥
EndsOpen (p ∷ ps) = EndsEmpty ps

EndsEmpty-cons : (p : Chars) (ps : List Chars) → EndsEmpty ps → EndsEmpty (p ∷ ps)
EndsEmpty-cons p [] h = absurd h
EndsEmpty-cons p (q ∷ ps) h = h

EndsOpen-Empty : (ps : List Chars) → EndsOpen ps → EndsEmpty ps
EndsOpen-Empty [] h = h
EndsOpen-Empty (p ∷ ps) h = EndsEmpty-cons p ps h

push_head-EndsOpen : (c : ℕ) (ps : List Chars) → EndsOpen ps → EndsOpen (push_head c ps)
unfolding push_head
push_head-EndsOpen c [] h = absurd h
push_head-EndsOpen c (p ∷ ps) h = h

split_star-EndsOpen : (p : Chars) → EndsOpen (split_star (p ++ b'*' ∷ []))
unfolding split_star push_head
split_star-EndsOpen [] = refl
split_star-EndsOpen (c ∷ p) = elim (Bool-cases (c == b'*')) [
  | inl e ↦ rw e (EndsOpen-Empty (split_star (p ++ b'*' ∷ [])) (split_star-EndsOpen p))
  | inr e ↦ rw e (push_head-EndsOpen c (split_star (p ++ b'*' ∷ [])) (split_star-EndsOpen p))
]

match_parts_sound :
    (ps : List Chars) (rest model : Chars)
    → EndsEmpty ps
    → match_parts ps rest model ≡ true
    → (g : Chars) × (t : Chars) × (rest ≡ g ++ t) × Matches ps t
unfolding match_parts
match_parts_sound [] rest model h m = absurd h
match_parts_sound (p ∷ []) rest model h m = (rest, [], sym (append-nil rest), sym h)
match_parts_sound (p ∷ q ∷ ps) rest model h m = elim (Bool-cases (is_empty_part p)) [
  | inl e ↦
      let (g, t, er, k) = match_parts_sound (q ∷ ps) rest model h (rw e at m) in
      ([], rest, refl, (g, t, er ∙ ap (λ z. z ++ (g ++ t)) (sym (is_empty_part-eq p e)), k))
  | inr e ↦ elim (Option-cases (find_after p rest)) [
    | inl f ↦ absurd (not_both refl (rw (e, f) at m))
    | inr (s, f) ↦
        let (g, t, er, k) = match_parts_sound (q ∷ ps) s model h (rw (e, f) at m) in
        let (v, ev) = find_after-rest p rest s f in (v, p ++ s, ev, (g, t, ap (p ++◌) er, k))
  ]
]

match_split_sound :
    (ps : List Chars) (t : Chars) → EndsOpen ps → match_split ps t ≡ true → Matches ps t
unfolding match_split
match_split_sound [] t h m = absurd h
match_split_sound (p ∷ []) t h m = absurd h
match_split_sound (p ∷ q ∷ ps) t h m = elim (Bool-cases (is_empty_part p)) [
  | inl e ↦
      let (g, r, er, k) = match_parts_sound (q ∷ ps) t t h (rw e at m) in
      (g, r, er ∙ ap (λ z. z ++ (g ++ r)) (sym (is_empty_part-eq p e)), k)
  | inr e ↦ elim (Option-cases (strip_prefix p t)) [
    | inl f ↦ absurd (not_both refl (rw (e, f) at m))
    | inr (s, f) ↦
        let (g, r, er, k) = match_parts_sound (q ∷ ps) s t h (rw (e, f) at m) in
        (g, r, strip_prefix-rest p t s f ∙ ap (p ++◌) er, k)
  ]
]

abbrev IsSplit : List Chars → Type 0
IsSplit [] = ⊥
IsSplit (p ∷ []) = ⊥
IsSplit (p ∷ q ∷ ps) = Unit

gap-IsSplit : (ps : List Chars) → ps ≢ [] → IsSplit ([] ∷ ps)
gap-IsSplit [] n = absurd (n refl)
gap-IsSplit (p ∷ ps) n = tt

push_head-IsSplit : (c : ℕ) (ps : List Chars) → IsSplit ps → IsSplit (push_head c ps)
unfolding push_head
push_head-IsSplit c [] h = absurd h
push_head-IsSplit c (p ∷ []) h = absurd h
push_head-IsSplit c (p ∷ q ∷ ps) h = tt

contains_other :
    (c : ℕ) (p : Chars)
    → (c == b'*') ≡ false
    → contains (b'*' ∷ []) (c ∷ p) ≡ contains (b'*' ∷ []) p
unfolding contains find_after strip_prefix
contains_other c p h = ground arith

contains_nothing : contains (b'*' ∷ []) [] ≢ true
unfolding contains find_after strip_prefix
contains_nothing h = cc

split_star-IsSplit : (p : Chars) → contains (b'*' ∷ []) p ≡ true → IsSplit (split_star p)
unfolding split_star
split_star-IsSplit [] h = absurd (contains_nothing h)
split_star-IsSplit (c ∷ p) h = elim (Bool-cases (c == b'*')) [
  | inl e ↦ rw e (gap-IsSplit (split_star p) (split_star-nonempty p))
  | inr e ↦
      rw e
        (push_head-IsSplit c (split_star p) (split_star-IsSplit p (sym (contains_other c p e) ∙ h)))
]

EndsOpen-IsSplit : (ps : List Chars) → EndsOpen ps → IsSplit ps
EndsOpen-IsSplit [] h = h
EndsOpen-IsSplit (p ∷ []) h = h
EndsOpen-IsSplit (p ∷ q ∷ ps) h = tt

-- With several parts the loop decides.
pattern_matches-parts :
    (lower : String → String) (pattern model : String) (ps : List Chars)
    → split_star (codes pattern) ≡ ps
    → IsSplit ps
    → pattern_matches lower pattern model ≡ match_split ps (codes model)
unfolding pattern_matches
pattern_matches-parts lower pattern model [] e h = absurd h
pattern_matches-parts lower pattern model (p ∷ []) e h = absurd h
pattern_matches-parts lower pattern model (p ∷ q ∷ ps) e h = rw (pattern_matches, e) refl

-- A pattern with a `*` matches every text that the meaning of `*` allows.
pub pattern_matches_complete :
    (lower : String → String) (pattern model : String)
    → contains (codes "*") (codes pattern) ≡ true
    → Glob (codes pattern) (codes model)
    → pattern_matches lower pattern model ≡ true
unfolding codes
pattern_matches_complete lower pattern model star h =
    pattern_matches-parts lower pattern model (split_star (codes pattern)) refl
      (split_star-IsSplit (codes pattern) star)
    ∙ match_split_complete (split_star (codes pattern)) (codes model)
        (Glob-Matches (codes pattern) (codes model) h)

-- A pattern that ends in `*` matches exactly the texts that the meaning of `*` allows: its matching
-- is true if and only if the relation holds.
pub pattern_matches-exact :
    (lower : String → String) (pattern model : String) (p : Chars)
    → codes pattern ≡ p ++ b'*' ∷ []
    → (pattern_matches lower pattern model ≡ true) ↔ Glob (codes pattern) (codes model)
pattern_matches-exact lower pattern model p e =
    let ends : EndsOpen (split_star (codes pattern)) = rw e (split_star-EndsOpen p) in
    let parts =
      pattern_matches-parts lower pattern model (split_star (codes pattern)) refl
        (EndsOpen-IsSplit (split_star (codes pattern)) ends) in
    (
      (λ h.
          Matches-Glob (codes pattern) (codes model)
            (match_split_sound (split_star (codes pattern)) (codes model) ends (sym parts ∙ h))),
      (λ h.
          parts
          ∙ match_split_complete (split_star (codes pattern)) (codes model)
              (Glob-Matches (codes pattern) (codes model) h)),
    )
