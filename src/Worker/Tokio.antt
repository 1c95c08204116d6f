-- ===== src/Worker/Tokio.antt =====
-- What the queue worker relies on of tokio, whose code is not in the repository: the documented
-- behaviour of `Notify` with one task that waits, and of `Semaphore`. Both are parameters.
use llm_benchmark.Common.{ℕ, suc, Bool, true, false, ◌≡◌, Option, some}

pub record Runtime : Type 1 where
  -- `Notify`: whether the main loop is registered as waiting, and whether a wake-up is stored.
  pub Notifier : Type 0
  pub fresh : Notifier
  pub waits : Notifier → Bool
  pub stored : Notifier → Bool
  -- `notified().await`: true when a stored wake-up lets it pass at once.
  pub wait : Notifier → Bool × Notifier
  pub notify_one : Notifier → Notifier
  pub notify_waiters : Notifier → Notifier
  pub fresh_stored : stored fresh ≡ false
  pub wait_stored : (n : Notifier) → stored n ≡ true → (wait n).0 ≡ true
  pub wait_registers :
      (n : Notifier) → stored n ≡ false → ((wait n).0 ≡ false) × (waits (wait n).1 ≡ true)
  -- `notify_waiters` wakes whoever waits, and stores nothing.
  pub notify_waiters_wakes : (n : Notifier) → waits (notify_waiters n) ≡ false
  pub notify_waiters_stored : (n : Notifier) → stored (notify_waiters n) ≡ stored n
  -- `notify_one` wakes the one that waits, or is stored.
  pub notify_one_wakes : (n : Notifier) → waits (notify_one n) ≡ false
  pub notify_one_stores : (n : Notifier) → waits n ≡ false → stored (notify_one n) ≡ true
  -- `Semaphore`: `try_acquire_owned` followed by `forget`, and `add_permits(1)`.
  pub Semaphore : Type 0
  pub available : Semaphore → ℕ
  pub with_permits : ℕ → Semaphore
  pub try_acquire : Semaphore → Option Semaphore
  pub add_permit : Semaphore → Semaphore
  pub available_with : (n : ℕ) → available (with_permits n) ≡ n
  pub acquire_takes : (s t : Semaphore) → try_acquire s ≡ some t → available s ≡ suc (available t)
  pub acquire_succeeds :
      (s : Semaphore) (n : ℕ) → available s ≡ suc n → (t : Semaphore) × (try_acquire s ≡ some t)
  pub add_permit_gives : (s : Semaphore) → available (add_permit s) ≡ suc (available s)
