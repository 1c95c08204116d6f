-- ===== src/Reasoning/Greedy.antt =====
-- The search of the parts in crates/benchmark-types/src/reasoning.rs takes each part where it
-- stands first, which misses no text with the parts in their order.
use mathlib.Core.List.{append_assoc, append-nil}
use llm_benchmark.Common.{
  ℕ, true, List, [], ◌∷◌, ◌++◌, none, some, ◌≡◌, refl, sym, ap, ◌∙◌, Bool-cases, Option-cases, inl,
  inr, arith, length, length-append, ◌≤◌,
}
use llm_benchmark.Reasoning.Globs.{Matches}
use llm_benchmark.Reasoning.Patterns.{
  Chars, strip_prefix, find_after, chars_eq, ends_with, is_empty_part, match_parts, match_split,
}

-- A part that is found leaves what follows it.
pub strip_prefix-rest : (p t r : Chars) → strip_prefix p t ≡ some r → t ≡ p ++ r
unfolding strip_prefix
strip_prefix-rest [] t r h = cc
strip_prefix-rest (c ∷ p) [] r h = cc
strip_prefix-rest (c ∷ p) (d ∷ t) r h = ground (arith, strip_prefix-rest p t r)

strip_prefix-append : (p r : Chars) → strip_prefix p (p ++ r) ≡ some r
unfolding strip_prefix
strip_prefix-append [] r = refl
strip_prefix-append (c ∷ p) r = ground (arith, strip_prefix-append p r)

find_after-hit : (p t r : Chars) → strip_prefix p t ≡ some r → find_after p t ≡ some r
unfolding find_after
find_after-hit p [] r h = h
find_after-hit p (d ∷ t) r h = rw (find_after, h) refl

find_after-miss :
    (p : Chars) (d : ℕ) (t : Chars)
    → strip_prefix p (d ∷ t) ≡ none
    → find_after p (d ∷ t) ≡ find_after p t
unfolding find_after
find_after-miss p d t h = rw (find_after, h) refl

pub find_after-rest : (p t r : Chars) → find_after p t ≡ some r → (g : Chars) × (t ≡ g ++ (p ++ r))
find_after-rest p [] r h = ([], strip_prefix-rest p [] r (unfold find_after in h))
find_after-rest p (d ∷ t) r h = elim (Option-cases (strip_prefix p (d ∷ t))) [
  | inl e ↦
      let (g, q) = find_after-rest p t r (sym (find_after-miss p d t e) ∙ h) in
      (d ∷ g, ap (◌∷◌ d) q)
  | inr (s, e) ↦ ([], strip_prefix-rest p (d ∷ t) r (e ∙ (sym (find_after-hit p (d ∷ t) s e) ∙ h)))
]

tail-eq : {c d : ℕ} {s t : Chars} → ◌≡◌ {A = Chars} (c ∷ s) (d ∷ t) → s ≡ t
tail-eq e = cc

-- Of two ends of one text, the one before which less stands ends in the other.
shorter-suffix :
    (xs ys s r : Chars) → length xs ≤ length ys → xs ++ s ≡ ys ++ r → (h : Chars) × (s ≡ h ++ r)
shorter-suffix [] ys s r le e = (ys, e)
shorter-suffix (x ∷ xs) [] s r le e = absurd (omega (arith, le))
shorter-suffix (x ∷ xs) (y ∷ ys) s r le e = shorter-suffix xs ys s r (omega (arith, le)) (tail-eq e)

-- The first occurrence is not after any other.
abbrev FoundBefore : Chars → Chars → Chars → Type 0
FoundBefore p t r = (s : Chars) × (h : Chars) × (find_after p t ≡ some s) × (s ≡ h ++ r)

find_after-first : (p g r : Chars) → FoundBefore p (g ++ (p ++ r)) r
find_after-first p [] r = (r, [], find_after-hit p (p ++ r) r (strip_prefix-append p r), refl)
find_after-first p (d ∷ g) r = elim (Option-cases (strip_prefix p (d ∷ (g ++ (p ++ r))))) [
  | inl e ↦
      let (s, h, found, q) = find_after-first p g r in
      (s, h, find_after-miss p d (g ++ (p ++ r)) e ∙ found, q)
  | inr (s, e) ↦
      let text = sym (strip_prefix-rest p (d ∷ (g ++ (p ++ r))) s e) in
      let (h, q) =
        shorter-suffix p (d ∷ (g ++ p)) s r (omega (arith, length-append g p))
          (text ∙ ap (◌∷◌ d) (sym (append_assoc g p r))) in
      (s, h, find_after-hit p (d ∷ (g ++ (p ++ r))) s e, q)
]

pub chars_eq_self : (p : Chars) → chars_eq p p ≡ true
unfolding chars_eq
chars_eq_self [] = refl
chars_eq_self (c ∷ p) = ground (arith, chars_eq_self p)

ends_with-append : (g p : Chars) → ends_with p (g ++ p) ≡ true
unfolding ends_with
ends_with-append [] [] = refl
ends_with-append [] (c ∷ p) = rw (chars_eq_self (c ∷ p)) refl
ends_with-append (d ∷ g) p = ground (arith, ends_with-append g p)

pub is_empty_part-eq : (p : Chars) → is_empty_part p ≡ true → p ≡ []
unfolding is_empty_part
is_empty_part-eq [] h = refl
is_empty_part-eq (c ∷ p) h = cc

-- The loop takes each part where it stands first, and misses no text that has the parts.
pub match_parts_complete :
    (ps : List Chars) (rest model before g t : Chars)
    → rest ≡ g ++ t
    → model ≡ before ++ rest
    → Matches ps t
    → match_parts ps rest model ≡ true
unfolding match_parts
match_parts_complete [] rest model before g t er em h = refl
match_parts_complete (p ∷ []) rest model before g t er em h = elim (Bool-cases (is_empty_part p)) [
  | inl e ↦ rw e refl
  | inr e ↦
      let whole : model ≡ (before ++ g) ++ p =
        em ∙ (ap (before ++◌) (er ∙ ap (g ++◌) h) ∙ sym (append_assoc before g p)) in
      rw (e, whole) (ends_with-append (before ++ g) p)
]
match_parts_complete (p ∷ q ∷ ps) rest model before g t er em (x, r, et, h) =
    elim (Bool-cases (is_empty_part p)) [
      | inl e ↦
          let gap : rest ≡ (g ++ x) ++ r =
            er
            ∙ (ap (g ++◌) (et ∙ ap (λ z. z ++ (x ++ r)) (is_empty_part-eq p e))
                ∙ sym (append_assoc g x r)) in
          rw e (match_parts_complete (q ∷ ps) rest model before (g ++ x) r gap em h)
      | inr e ↦
          let (s, u, found, es) = find_after-first p g (x ++ r) in
          let at_rest : find_after p rest ≡ some s =
            ap (find_after p) (er ∙ ap (g ++◌) et) ∙ found in
          let (v, ev) = find_after-rest p rest s at_rest in
          let whole : model ≡ ((before ++ v) ++ p) ++ s =
            em
            ∙ (ap (before ++◌) ev
                ∙ (sym (append_assoc before v (p ++ s)) ∙ sym (append_assoc (before ++ v) p s))) in
          rw (e, at_rest)
            (match_parts_complete (q ∷ ps) s model ((before ++ v) ++ p) (u ++ x) r
              (es ∙ sym (append_assoc u x r)) whole h)
    ]

pub match_split_complete : (ps : List Chars) (t : Chars) → Matches ps t → match_split ps t ≡ true
unfolding match_split
match_split_complete [] t h = refl
match_split_complete (p ∷ []) t h = elim (Bool-cases (is_empty_part p)) [
  | inl e ↦ rw e refl
  | inr e ↦
      let hit : strip_prefix p t ≡ some [] =
        ap (strip_prefix p) (h ∙ sym (append-nil p)) ∙ strip_prefix-append p [] in
      rw (e, hit) refl
]
match_split_complete (p ∷ q ∷ ps) t (g, r, et, h) = elim (Bool-cases (is_empty_part p)) [
  | inl e ↦ rw e (
      match_parts_complete (q ∷ ps) t t [] g r (et ∙ ap (λ z. z ++ (g ++ r)) (is_empty_part-eq p e))
        refl h)
  | inr e ↦
      let hit : strip_prefix p t ≡ some (g ++ r) =
        ap (strip_prefix p) et ∙ strip_prefix-append p (g ++ r) in
      rw (e, hit) (match_parts_complete (q ∷ ps) (g ++ r) t p g r refl et h)
]
