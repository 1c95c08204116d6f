-- ===== src/Worker/Counted.antt =====
-- A `Notify` and a `Semaphore` made of counters, which behave as Worker/Tokio asks: the examples of
-- the theorems about benchmark-web/src/services/queue_processor.rs and
-- crates/benchmark-core/src/parallel/mod.rs run on it.
use llm_benchmark.Common.{ℕ, zero, suc, Bool, true, false, ◌≡◌, refl, Option, none, some, arith}
use llm_benchmark.Worker.Tokio.{Runtime}

pub record Flags : Type 0 where
  pub waiting : Bool
  pub permit : Bool

unfoldable pub wait_flags : Flags → Bool × Flags
wait_flags n = elim n.permit [
  | true ↦ (true, record { waiting = false; permit = false })
  | false ↦ (false, record { waiting = true; permit = false })
]

unfoldable pub wake_one : Flags → Flags
wake_one n = elim n.waiting [
  | true ↦ record n { waiting = false }
  | false ↦ record n { permit = true }
]

unfoldable pub take_permit : ℕ → Option ℕ
take_permit zero = none
take_permit (suc n) = some n

pub wait_flags_stored : (n : Flags) → n.permit ≡ true → (wait_flags n).0 ≡ true
unfolding wait_flags
wait_flags_stored n h = ground arith

pub wait_flags_registers :
    (n : Flags) → n.permit ≡ false → ((wait_flags n).0 ≡ false) × ((wait_flags n).1.waiting ≡ true)
unfolding wait_flags
wait_flags_registers n h = ground arith

pub wake_one_wakes : (n : Flags) → (wake_one n).waiting ≡ false
unfolding wake_one
wake_one_wakes n = ground arith

pub wake_one_stores : (n : Flags) → n.waiting ≡ false → (wake_one n).permit ≡ true
unfolding wake_one
wake_one_stores n h = ground arith

pub take_permit_takes : (s t : ℕ) → take_permit s ≡ some t → s ≡ suc t
unfolding take_permit
take_permit_takes zero t h = cc
take_permit_takes (suc n) t h = cc

pub take_permit_succeeds : (s n : ℕ) → s ≡ suc n → (t : ℕ) × (take_permit s ≡ some t)
unfolding take_permit
take_permit_succeeds zero n h = absurd (omega arith)
take_permit_succeeds (suc m) n h = (m, refl)

abbrev pub counted_runtime : Runtime
counted_runtime = record {
  Notifier = Flags;
  fresh = record { waiting = false; permit = false };
  waits = λ n. n.waiting;
  stored = λ n. n.permit;
  wait = wait_flags;
  notify_one = wake_one;
  notify_waiters = λ n. record n { waiting = false };
  fresh_stored = refl;
  wait_stored = wait_flags_stored;
  wait_registers = wait_flags_registers;
  notify_waiters_wakes = λ n. refl;
  notify_waiters_stored = λ n. refl;
  notify_one_wakes = wake_one_wakes;
  notify_one_stores = wake_one_stores;
  Semaphore = ℕ;
  available = λ n. n;
  with_permits = λ n. n;
  try_acquire = take_permit;
  add_permit = suc;
  available_with = λ n. refl;
  acquire_takes = take_permit_takes;
  acquire_succeeds = take_permit_succeeds;
  add_permit_gives = λ n. refl;
}
