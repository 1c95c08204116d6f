-- ===== src/Processor/Waiting.antt =====
-- The waiting loop of `process_queue_item` in benchmark-web/src/services/queue_processor.rs: that it
-- ends, and what each of its verdicts rests on.
use llm_benchmark.Common.{
  ℕ, zero, suc, ◌+◌, ◌*◌, ◌≤◌, ◌<◌, Bool, true, false, ◌≡◌, refl, sym, ◌∙◌, inl, inr, ◌⊎◌, Option,
  none, some, arith, Option-cases, Bool-cases, ltb, if◌then◌else◌, subst,
}
use llm_benchmark.Status.{RunStatus}
use llm_benchmark.Processor.{Verdict, look, settle, max_wait, grace, pause}

-- Two looks are at least 500 ms apart.
unfoldable pub IsPaced : (ℕ → ℕ) → Type 0
IsPaced elapsed = (i : ℕ) → elapsed i + pause ≤ elapsed (suc i)

-- The number of looks by which the loop has ended.
abbrev pub enough_looks : ℕ
enough_looks = 7802

paced-after : (elapsed : ℕ → ℕ) → IsPaced elapsed → (i : ℕ) → pause * i ≤ elapsed i
unfolding IsPaced
paced-after elapsed paced zero = omega arith
paced-after elapsed paced (suc i) = omega (arith, paced i, paced-after elapsed paced i)

-- After 3900 s every look decides.
look-late : (s : Option RunStatus) (e : ℕ) → max_wait < e → (v : Verdict) × (look s e ≡ some v)
unfolding look
look-late none e late = (Verdict.fails, ground (arith, late))
look-late (some RunStatus.pending) e late = (Verdict.fails, ground (arith, late))
look-late (some RunStatus.running) e late = (Verdict.fails, ground (arith, late))
look-late (some RunStatus.completed) e late = (Verdict.completes, refl)
look-late (some RunStatus.cancelled) e late = (Verdict.cancels, refl)
look-late (some RunStatus.failed) e late = (Verdict.fails, refl)

-- What a verdict rests on: a final state that was seen, or a session that went on for longer than
-- 3900 s, or one that was missing after more than 10 s.
unfoldable pub Reason : Verdict → Option RunStatus → ℕ → Type 0
Reason Verdict.completes s e = s ≡ some RunStatus.completed
Reason Verdict.cancels s e = s ≡ some RunStatus.cancelled
Reason Verdict.fails s e =
    (s ≡ some RunStatus.failed)
    ⊎ (((t : RunStatus) × (s ≡ some t)) × (max_wait < e))
    ⊎ ((s ≡ none) × (grace < e))

late_fails :
    (c : Bool) (v : Verdict)
    → (if c then some Verdict.fails else none) ≡ some v
    → (c ≡ true) × (Verdict.fails ≡ v)
late_fails true v h = (refl, cc)
late_fails false v h = absurd cc

some_verdict : {v w : Verdict} → some v ≡ some w → v ≡ w
some_verdict h = cc

went_on :
    (t : RunStatus) (e : ℕ) (v : Verdict)
    → (if ltb max_wait e then some Verdict.fails else none) ≡ some v
    → Reason v (some t) e
unfolding Reason
went_on t e v h =
    let (late, same) = late_fails (ltb max_wait e) v h in
    subst (λ w. Reason w (some t) e) same (inr (inl ((t, refl), ground (arith, late))))

look-Reason : (s : Option RunStatus) (e : ℕ) (v : Verdict) → look s e ≡ some v → Reason v s e
unfolding look Reason
look-Reason none e v h =
    let (late, same) = late_fails (ltb grace e) v h in
    subst (λ w. Reason w none e) same (inr (inr (refl, ground (arith, late))))
look-Reason (some RunStatus.pending) e v h = went_on RunStatus.pending e v h
look-Reason (some RunStatus.running) e v h = went_on RunStatus.running e v h
look-Reason (some RunStatus.completed) e v h =
    subst (λ w. Reason w (some RunStatus.completed) e) (some_verdict h) refl
look-Reason (some RunStatus.cancelled) e v h =
    subst (λ w. Reason w (some RunStatus.cancelled) e) (some_verdict h) refl
look-Reason (some RunStatus.failed) e v h =
    subst (λ w. Reason w (some RunStatus.failed) e) (some_verdict h) (inl refl)

le-cases : (i j : ℕ) → i ≤ j → (i ≡ j) ⊎ (suc i ≤ j)
le-cases i j le = elim (Bool-cases (ltb i j)) [
  | inl e ↦ inr (ground (arith, e))
  | inr e ↦ inl (ground (arith, e, le))
]

module _ (seen : ℕ → Option RunStatus) (elapsed : ℕ → ℕ) where
  -- From look `i` on, the loop ends with a verdict at its look `last`, for its reason, after looks
  -- that decided nothing.
  pub record Settled (fuel i : ℕ) (v : Verdict) : Type 0 where
    pub ended : settle seen elapsed fuel i ≡ some v
    pub last : ℕ
    pub reason : Reason v (seen last) (elapsed last)
    pub waited : (j : ℕ) → i ≤ j → j < last → look (seen j) (elapsed j) ≡ none
    pub in_time : last < enough_looks

  Settled-now :
      (fuel i : ℕ) (v : Verdict)
      → look (seen i) (elapsed i) ≡ some v
      → i < enough_looks
      → Settled (suc fuel) i v
  unfolding settle
  Settled-now fuel i v h lt = record {
    ended = rw (h, settle) refl;
    last = i;
    reason = look-Reason (seen i) (elapsed i) v h;
    waited = λ j le lt'. absurd (omega (arith, le, lt'));
    in_time = lt;
  }

  Settled-later :
      (fuel i : ℕ) (v : Verdict)
      → look (seen i) (elapsed i) ≡ none
      → Settled fuel (suc i) v
      → Settled (suc fuel) i v
  unfolding settle
  Settled-later fuel i v h s = record {
    ended = rw (h, settle) s.ended;
    last = s.last;
    reason = s.reason;
    waited = λ j le lt. elim (le-cases i j le) [
      | inl same ↦ subst (λ k. look (seen k) (elapsed k) ≡ none) same h
      | inr after ↦ s.waited j after lt
    ];
    in_time = s.in_time;
  }

  settle-Settled :
      IsPaced elapsed
      → (fuel i : ℕ) → i < enough_looks
      → enough_looks ≤ fuel + i
      → (v : Verdict) × Settled fuel i v
  settle-Settled paced zero i lt enough = absurd (omega (arith, lt, enough))
  settle-Settled paced (suc fuel) i lt enough = elim (Option-cases (look (seen i) (elapsed i))) [
    | inr (v, h) ↦ (v, Settled-now fuel i v h lt)
    | inl h ↦ elim (Bool-cases (ltb (suc i) enough_looks)) [
      | inl more ↦
          let (v, s) =
            settle-Settled paced fuel (suc i) (ground (arith, more)) (omega (arith, enough)) in
          (v, Settled-later fuel i v h s)
      | inr over ↦
          let all : enough_looks ≤ suc i = ground (arith, over) in
          let (v, decided) =
            look-late (seen i) (elapsed i) (omega (arith, all, paced-after elapsed paced i)) in
          absurd (none_some (sym h ∙ decided))
    ]
  ]
    where
      none_some : {v : Verdict} → none ≡ some v → ⊥
      none_some e = cc

  -- With its pauses of at least 500 ms the waiting loop ends within 7802 looks, whatever it sees.
  -- It completes or cancels the item only if it saw the session COMPLETED or CANCELLED, and fails it
  -- only if it saw it FAILED, or going on after more than 3900 s, or missing after more than 10 s.
  pub settle_ends :
      (fuel : ℕ) → IsPaced elapsed → enough_looks ≤ fuel → (v : Verdict) × Settled fuel 0 v
  settle_ends fuel paced enough = settle-Settled paced fuel 0 (omega arith) (omega (arith, enough))
