-- ===== src/EtcPal/Timers.antt =====
-- etcpal/timer.h: a timer is started at a time, for an interval, and expired once that has passed.
use s_acn.Prelude.{ℕ, ◌≤◌, ◌<◌, ◌+◌, ◌≡◌, Bool, true, false}

-- The first argument of the functions is the time of the call.
pub record Timers : Type 1 where
  pub Timer : Type 0
  pub start : ℕ → ℕ → Timer
  pub reset : ℕ → Timer → Timer
  pub is_expired : ℕ → Timer → Bool
  pub reset-start : (now t interval : ℕ) → reset now (start t interval) ≡ start now interval
  pub expired_at_once : (now t : ℕ) → t ≤ now → is_expired now (start t 0) ≡ true
  pub fresh :
      (now t interval : ℕ)
      → t ≤ now
      → now < t + interval
      → is_expired now (start t interval) ≡ false
  pub expired_later :
      (now t interval : ℕ) → t + interval < now → is_expired now (start t interval) ≡ true
