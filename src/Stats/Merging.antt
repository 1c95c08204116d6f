-- ===== src/Stats/Merging.antt =====
-- The merging of intervals of crates/benchmark-types/src/agent/mod.rs measures what they cover.
use llm_benchmark.Common.{
  ℕ, ◌+◌, ◌-◌, ◌≤◌, ◌<◌, Bool, true, false, List, [], ◌∷◌, if◌then◌else◌, leb, ltb, ◌&&◌, ◌||◌, ◌≡◌,
  refl, sym, ap, ◌∙◌, All, arith, Bool-cases, inl, inr,
}
use llm_benchmark.Stats.{
  TimeInterval, insert_by_start, sort_by_start, merge_loop, merge_sorted,
  merge_intervals_and_total_duration,
}
use llm_benchmark.Stats.Measure.{
  count, within, contains_time, covered, count-ext, count-disjoint, count-within, count-nothing,
}

-- Every interval ends by the bound, and not before it starts.
abbrev pub AreProper : ℕ → List TimeInterval → Type 0
AreProper n is = All (λ i. (i.start ≤ i.end) × (i.end ≤ n)) is

abbrev StartAfter : ℕ → List TimeInterval → Type 0
StartAfter s is = All (λ i. s ≤ i.start) is

abbrev AreSorted : List TimeInterval → Type 0
AreSorted [] = Unit
AreSorted (i ∷ is) = StartAfter i.start is × AreSorted is

StartAfter-le : (s r : ℕ) (is : List TimeInterval) → s ≤ r → StartAfter r is → StartAfter s is
StartAfter-le s r [] le h = tt
StartAfter-le s r (i ∷ is) le h = (omega (arith, le, h.0), StartAfter-le s r is le h.1)

insert-StartAfter :
    (s : ℕ) (i : TimeInterval) (is : List TimeInterval)
    → s ≤ i.start
    → StartAfter s is
    → StartAfter s (insert_by_start i is)
unfolding insert_by_start
insert-StartAfter s i [] le h = (le, tt)
insert-StartAfter s i (j ∷ js) le h = elim (Bool-cases (leb i.start j.start)) [
  | inl e ↦ rw e (le, h)
  | inr e ↦ rw e (h.0, insert-StartAfter s i js le h.1)
]

insert-AreSorted :
    (i : TimeInterval) (is : List TimeInterval) → AreSorted is → AreSorted (insert_by_start i is)
unfolding insert_by_start
insert-AreSorted i [] h = (tt, tt)
insert-AreSorted i (j ∷ js) h = elim (Bool-cases (leb i.start j.start)) [
  | inl e ↦
      let le : i.start ≤ j.start = ground (arith, e) in
      rw e ((le, StartAfter-le i.start j.start js le h.0), h)
  | inr e ↦
      let le : j.start ≤ i.start = ground (arith, e) in
      rw e (insert-StartAfter j.start i js le h.0, insert-AreSorted i js h.1)
]

sort-AreSorted : (is : List TimeInterval) → AreSorted (sort_by_start is)
unfolding sort_by_start
sort-AreSorted [] = tt
sort-AreSorted (i ∷ is) = insert-AreSorted i (sort_by_start is) (sort-AreSorted is)

insert-AreProper :
    (n : ℕ) (i : TimeInterval) (is : List TimeInterval)
    → (i.start ≤ i.end) × (i.end ≤ n)
    → AreProper n is
    → AreProper n (insert_by_start i is)
unfolding insert_by_start
insert-AreProper n i [] p h = (p, tt)
insert-AreProper n i (j ∷ js) p h = elim (Bool-cases (leb i.start j.start)) [
  | inl e ↦ rw e (p, h)
  | inr e ↦ rw e (h.0, insert-AreProper n i js p h.1)
]

sort-AreProper : (n : ℕ) (is : List TimeInterval) → AreProper n is → AreProper n (sort_by_start is)
unfolding sort_by_start
sort-AreProper n [] h = tt
sort-AreProper n (i ∷ is) h = insert-AreProper n i (sort_by_start is) h.0 (sort-AreProper n is h.1)

covered-insert :
    (t : ℕ) (i : TimeInterval) (is : List TimeInterval)
    → covered (insert_by_start i is) t ≡ covered (i ∷ is) t
unfolding insert_by_start
covered-insert t i [] = refl
covered-insert t i (j ∷ js) = elim (Bool-cases (leb i.start j.start)) [
  | inl e ↦ rw e refl
  | inr e ↦ rw (e, covered-insert t i js) (swap (contains_time t i) (contains_time t j))
]
  where
    swap :
        (a b : Bool)
        → (if b then true else if a then true else covered js t)
          ≡ (if a then true else if b then true else covered js t)
    swap true true = refl
    swap true false = refl
    swap false true = refl
    swap false false = refl

covered-sort : (t : ℕ) (is : List TimeInterval) → covered (sort_by_start is) t ≡ covered is t
unfolding sort_by_start
covered-sort t [] = refl
covered-sort t (i ∷ is) =
    covered-insert t i (sort_by_start is)
    ∙ ap (λ c. if contains_time t i then true else c) (covered-sort t is)

-- Nothing that starts later contains a time before.
covered-before : (t s : ℕ) (is : List TimeInterval) → t < s → StartAfter s is → covered is t ≡ false
covered-before t s [] lt h = refl
covered-before t s (i ∷ is) lt h = ground (arith, lt, h.0, covered-before t s is lt h.1)

same_or : (a b : Bool) → (a || b) ≡ (if a then true else b)
same_or true b = refl
same_or false b = refl

-- An interval that starts in the current one extends it.
within-extended :
    (s e a b : ℕ) (c : Bool) (t : ℕ)
    → s ≤ a
    → a ≤ e
    → s ≤ e
    → a ≤ b
    → (within s (if leb e b then b else e) t || c)
      ≡ (within s e t || (if within a b t then true else c))
within-extended s e a b true t p q r u = ground (arith, p, q, r, u)
within-extended s e a b false t p q r u = ground (arith, p, q, r, u)

-- One that starts after it has no time with it, nor have the later ones.
within-covered :
    (s e : ℕ) (i : TimeInterval) (is : List TimeInterval) (t : ℕ)
    → e < i.start
    → AreSorted (i ∷ is)
    → (within s e t && covered (i ∷ is) t) ≡ false
within-covered s e i is t lt sorted = elim (Bool-cases (ltb t e)) [
  | inl h ↦
      let before : t < i.start = ground (arith, lt, h) in
      rw (covered-before t i.start (i ∷ is) before (omega arith, sorted.0))
        (and_false (within s e t))
  | inr h ↦ ground (arith, h)
]
  where
    and_false : (a : Bool) → (a && false) ≡ false
    and_false true = refl
    and_false false = refl

-- The loop adds what the current interval and the rest cover.
merge_loop-count :
    (n total s e : ℕ) (is : List TimeInterval)
    → s ≤ e
    → e ≤ n
    → AreProper n is
    → StartAfter s is
    → AreSorted is
    → merge_loop total s e is ≡ total + count (λ t. within s e t || covered is t) n
unfolding merge_loop
merge_loop-count n total s e [] le bound proper after sorted = ap (total +◌) (
    sym (count-within s e n bound)
    ∙ count-ext (within s e) (λ t. within s e t || false) (λ t. sym (or_false (within s e t))) n)
  where
    or_false : (a : Bool) → (a || false) ≡ a
    or_false true = refl
    or_false false = refl
merge_loop-count n total s e (i ∷ is) le bound proper after sorted =
    elim (Bool-cases (leb i.start e)) [
      | inl h ↦
          let starts_in : i.start ≤ e = ground (arith, h) in
          let longer : s ≤ (if leb e i.end then i.end else e) = ground (arith, le) in
          let bounded : (if leb e i.end then i.end else e) ≤ n = ground (arith, bound, proper.0) in
          rw h (
            merge_loop-count n total s (if leb e i.end then i.end else e) is longer bounded proper.1
              after.1 sorted.1
            ∙ ap (total +◌) (
                count-ext (λ t. within s (if leb e i.end then i.end else e) t || covered is t)
                  (λ t. within s e t || covered (i ∷ is) t)
                  (λ t.
                    within-extended s e i.start i.end (covered is t) t after.0 starts_in le
                      proper.0.0)
                  n))
      | inr h ↦
          let starts_after : e < i.start = ground (arith, h) in
          let rest =
            merge_loop-count n (total + (e - s)) i.start i.end is proper.0.0 proper.0.1 proper.1
              sorted.0 sorted.1 in
          let alike =
            count-ext (λ t. within i.start i.end t || covered is t) (covered (i ∷ is))
              (λ t. same_or (within i.start i.end t) (covered is t)) n in
          let apart =
            count-disjoint (within s e) (covered (i ∷ is))
              (λ t. within-covered s e i is t starts_after sorted) n in
          rw h (omega (arith, rest, alike, apart, count-within s e n bound))
    ]

merge_sorted-count :
    (n : ℕ) (is : List TimeInterval)
    → AreProper n is
    → AreSorted is
    → merge_sorted is ≡ count (covered is) n
unfolding merge_sorted
merge_sorted-count n [] proper sorted = sym (count-nothing n)
merge_sorted-count n (i ∷ is) proper sorted =
    let sum =
      merge_loop-count n 0 i.start i.end is proper.0.0 proper.0.1 proper.1 sorted.0 sorted.1 in
    let alike =
      count-ext (λ t. within i.start i.end t || covered is t) (covered (i ∷ is))
        (λ t. same_or (within i.start i.end t) (covered is t)) n in
    omega (arith, sum, alike)

-- For intervals in any order, which overlap or not, none of which ends before it starts, the total is
-- the number of milliseconds that at least one of them contains.
pub merge_intervals-count :
    (n : ℕ) (is : List TimeInterval)
    → AreProper n is
    → merge_intervals_and_total_duration is ≡ count (covered is) n
unfolding merge_intervals_and_total_duration
merge_intervals-count n is proper =
    merge_sorted-count n (sort_by_start is) (sort-AreProper n is proper) (sort-AreSorted is)
    ∙ count-ext (covered (sort_by_start is)) (covered is) (λ t. covered-sort t is) n
