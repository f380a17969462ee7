-- ===== src/EtcPal/Clock.antt =====
-- Timers with the behaviour that the interface asks for: the time of the start, and the interval. The
-- examples run on them.
use s_acn.Prelude.{ℕ, ◌+◌, Bool, ◌||◌, ltb, ◌==◌, refl, arith}
use s_acn.EtcPal.Timers.{Timers}

abbrev has_passed : ℕ → ℕ × ℕ → Bool
has_passed now (t, interval) = interval == 0 || ltb (t + interval) now

abbrev pub clock : Timers
clock = record {
  Timer = ℕ × ℕ;
  start = λ now interval. (now, interval);
  reset = λ now timer. (now, timer.1);
  is_expired = has_passed;
  reset-start = λ now t interval. refl;
  expired_at_once = λ now t le. ground arith;
  fresh = λ now t interval le lt. ground arith;
  expired_later = λ now t interval lt. ground arith;
}
