-- ===== src/EvTimer.antt =====
-- EvTimerBase of cpp/ev_timer.h and cpp/ev_timer.cc, over the timers of libev, which are a
-- parameter. Times are in microseconds.
use fpgaml.Common.{ℕ, ◌≡◌, Bool, true, false}

-- What the program uses of libev's `ev_timer`, with the documented behaviour that it relies on: a
-- timer that is started is active, and one that is stopped or fires without repeat is not.
pub record LibEv : Type 1 where
  pub Timer : Type 0
  pub init : Timer
  pub is_active : Timer → Bool
  pub start : Timer → ℕ → ℕ → Timer
  pub stop : Timer → Timer
  pub expire : Timer → Timer
  pub is_active-init : is_active init ≡ false
  pub is_active-start : (t : Timer) (at repeat : ℕ) → is_active (start t at repeat) ≡ true
  pub is_active-stop : (t : Timer) → is_active (stop t) ≡ false
  pub is_active-expire : (t : Timer) → is_active (expire t) ≡ false

module _ (ev : LibEv) where
  open ev use {Timer}

  -- start_timer sets the watcher's times and starts it.
  unfoldable pub start_timer : Timer → ℕ → ℕ → Timer
  start_timer t at repeat = ev.start t at repeat

  unfoldable pub stop_timer : Timer → Timer
  stop_timer t = ev.stop t

  unfoldable pub is_active : Timer → Bool
  is_active t = ev.is_active t
