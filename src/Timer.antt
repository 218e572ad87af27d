-- ===== src/Timer.antt =====
-- The clock: atmega328p/source/timer.c, and the timers of atmega328p/source/main.c above it.
pub mod Check
use libmobile_atmega.Prelude.{
  ℕ, ◌+◌, ◌-◌, ◌*◌, ◌/◌, ◌%◌, ◌^◌, ltb, Bool, Option, none, some, List, get_elem?, store,
}

-- F_CPU, set by atmega328p/Makefile
abbrev pub f_cpu : ℕ
f_cpu = 16000000

-- `micros` is the time in microseconds, a `uint32_t`, and `micros_latch` the times latched.
pub record Clock : Type 0 where
  pub micros : ℕ
  pub micros_latch : List ℕ

unfoldable pub timer_get : Clock → ℕ
timer_get s = s.micros

unfoldable pub timer_isr : Clock → Clock
timer_isr s = record s { micros = (s.micros + 64 * 256 / (f_cpu / 1000000)) % 2 ^ 32 }

-- `none` is a timer outside the array.
unfoldable pub mobile_impl_time_latch : ℕ → Clock → Option Clock
mobile_impl_time_latch timer s = elim (store s.micros_latch timer (timer_get s)) [
  | none ↦ none
  | some latched ↦ some (record s { micros_latch = latched })
]

unfoldable pub mobile_impl_time_check_ms : ℕ → ℕ → Clock → Option Bool
mobile_impl_time_check_ms timer ms s = elim (get_elem? s.micros_latch timer) [
  | none ↦ none
  | some latch ↦ some (ltb (ms % 2 ^ 32 * 1000 % 2 ^ 32) ((timer_get s + 2 ^ 32 - latch) % 2 ^ 32))
]
