-- ===== src/Watchdog/Timers.antt =====
-- The list of timers of crates/benchmark-core/src/docker/watchdog.rs: expiry and cancellation.
use mathlib.Core.List.{append_assoc}
use llm_benchmark.Common.{
  ℕ, ◌+◌, Bool, true, false, String, ◌≡◌, refl, ap, inl, inr, List, [], ◌∷◌, ◌++◌, none, some, not,
  arith, Bool-cases, map, length, retain, length-append,
}
use llm_benchmark.Watchdog.{
  Timer, has_id, position, remove_at, cancel_timer, cancel_position, is_overdue, timed_out,
  remove_rev, check_timeouts,
}

-- `Vec::remove` behind a prefix of its length.
pub remove_at-append :
    (ps : List Timer) (t : Timer) (ts : List Timer)
    → remove_at (length ps) (ps ++ t ∷ ts) ≡ some (ps ++ ts)
unfolding remove_at
remove_at-append [] t ts = refl
remove_at-append (p ∷ ps) t ts = rw (remove_at-append ps t ts) refl

module _ (timeout_secs now : ℕ) where
  abbrev pub alive : Timer → Bool
  alive t = not (is_overdue timeout_secs now t)

  next_index : (ps : List Timer) (t : Timer) (i : ℕ) → i ≡ length ps → i + 1 ≡ length (ps ++ t ∷ [])
  next_index ps t i e = omega (arith, length-append ps (t ∷ []))

  -- Removing by index from the back is filtering, and never out of range.
  remove_rev-retain :
      (ps ts : List Timer) (i : ℕ)
      → i ≡ length ps
      → remove_rev (timed_out timeout_secs now i ts) (ps ++ ts) ≡ some (ps ++ retain alive ts)
  unfolding remove_rev timed_out
  remove_rev-retain ps [] i e = refl
  remove_rev-retain ps (t ∷ ts) i e =
      let rest = remove_rev-retain (ps ++ t ∷ []) ts (i + 1) (next_index ps t i e) in
      let shifted : remove_rev (timed_out timeout_secs now (i + 1) ts) (ps ++ t ∷ ts)
          ≡ some (ps ++ t ∷ retain alive ts) =
        rw (append_assoc ps (t ∷ []) ts, append_assoc ps (t ∷ []) (retain alive ts)) at rest in
      elim (Bool-cases (is_overdue timeout_secs now t)) [
        | inl late ↦
            rw (late, remove_rev, timed_out)
              (rw (shifted, e) (remove_at-append ps t (retain alive ts)))
        | inr early ↦ rw (early, timed_out) shifted
      ]

  commands-timed_out :
      (ts : List Timer) (i : ℕ)
      → map (λ e. e.1) (timed_out timeout_secs now i ts)
        ≡ map (λ t. t.command) (retain (is_overdue timeout_secs now) ts)
  unfolding timed_out
  commands-timed_out [] i = refl
  commands-timed_out (t ∷ ts) i = ground (arith, commands-timed_out ts (i + 1))

  -- A check of the timeouts kills the commands of exactly the overdue timers, oldest first, and keeps
  -- exactly the others, in their order; the removals by index are never out of range.
  pub check_timeouts_exact :
      (ts : List Timer)
      → check_timeouts timeout_secs now ts
        ≡ some (map (λ t. t.command) (retain (is_overdue timeout_secs now) ts), retain alive ts)
  unfolding check_timeouts
  check_timeouts_exact ts =
      rw (remove_rev-retain [] ts 0 refl)
        (ap (λ cs. some (cs, retain alive ts)) (commands-timed_out ts 0))

-- No timer of the list has the id.
abbrev pub Unmatched : String → List Timer → Type 0
Unmatched id [] = Unit {0}
Unmatched id (t ∷ ts) = (has_id id t.id ≡ false) × Unmatched id ts

-- Cancelling takes out the oldest timer with the id and no other, and says that it did; with no such
-- timer, as for the result of another tool, nothing changes. It never panics.
pub data Cancels (id : String) (ts : List Timer) : Type 0 where
  absent : Unmatched id ts → cancel_timer id ts ≡ some (false, ts) → Cancels id ts
  taken :
      (older : List Timer) (t : Timer) (newer : List Timer)
      → ts ≡ older ++ t ∷ newer
      → Unmatched id older
      → has_id id t.id ≡ true
      → cancel_timer id ts ≡ some (true, older ++ newer)
      → Cancels id ts

data Located (id : String) (ts : List Timer) : Type 0 where
  nowhere : Unmatched id ts → position id ts ≡ none → Located id ts
  somewhere :
      (older : List Timer) (t : Timer) (newer : List Timer)
      → ts ≡ older ++ t ∷ newer
      → Unmatched id older
      → has_id id t.id ≡ true
      → position id ts ≡ some (length older)
      → Located id ts

position-Located : (id : String) (ts : List Timer) → Located id ts
unfolding position
position-Located id [] = nowhere tt refl
position-Located id (t ∷ ts) = elim (Bool-cases (has_id id t.id)) [
  | inl hit ↦ somewhere [] t ts refl tt hit (rw hit refl)
  | inr miss ↦ elim (position-Located id ts) [
    | nowhere u e ↦ nowhere (miss, u) (rw (miss, e) refl)
    | somewhere older x newer split u h e ↦
        somewhere (t ∷ older) x newer (ap (◌∷◌ t) split) (miss, u) h (rw (miss, e) refl)
  ]
]

-- The cancellation of a timer by the id of its tool call.
pub cancel_timer_exact : (id : String) (ts : List Timer) → Cancels id ts
unfolding cancel_timer cancel_position
cancel_timer_exact id ts = elim (position-Located id ts) [
  | nowhere u e ↦ absent u (rw e refl)
  | somewhere older t newer split u h e ↦
      taken older t newer split u h (rw (e, split) (rw (remove_at-append older t newer) refl))
]
