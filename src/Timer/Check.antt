-- ===== src/Timer/Check.antt =====
-- What a timer measures, across the wrap-around of the clock.
use libmobile_atmega.Prelude.{
  ℕ, zero, suc, ◌+◌, ◌*◌, ◌%◌, ◌^◌, ◌<◌, ◌≡◌, refl, ap, ap₂, ◌∙◌, arith, ltb, some, length,
  get_elem?, get_elem?-eq-get_or, get_or-set_self, set, store-set, length-set,
}
use libmobile_atmega.Timer.{
  Clock, timer_get, timer_isr, mobile_impl_time_latch, mobile_impl_time_check_ms,
}

-- So many interrupts
abbrev pub ticks : ℕ → Clock → Clock
ticks zero s = s
ticks (suc n) s = ticks n (timer_isr s)

ticks_lem :
    (n : ℕ) (s : Clock)
    → s.micros < 2 ^ 32
    → ((ticks n s).micros ≡ (s.micros + 1024 * n) % 2 ^ 32)
      × ((ticks n s).micros_latch ≡ s.micros_latch)
unfolding timer_isr
ticks_lem zero s h = (omega arith, refl)
ticks_lem (suc n) s h =
    let (m, l) = ticks_lem n (timer_isr s) (omega arith) in (omega (arith, m), l)

-- A timer that was latched is due after the first interrupt by which more than `ms` milliseconds
-- have passed, and not before, wherever the clock stood and also when it wraps around meanwhile: for
-- any number of interrupts, each of 1024 microseconds, that together stay below 2^32 microseconds,
-- and any `ms` of 16 bits.
pub time_check_ms-time_latch :
    (timer ms n : ℕ) (s : Clock)
    → timer < length s.micros_latch
    → s.micros < 2 ^ 32
    → ms < 2 ^ 16
    → 1024 * n < 2 ^ 32
    → (s' : Clock) × (mobile_impl_time_latch timer s ≡ some s')
      × (mobile_impl_time_check_ms timer ms (ticks n s') ≡ some (ltb (1000 * ms) (1024 * n)))
unfolding mobile_impl_time_latch mobile_impl_time_check_ms timer_get
time_check_ms-time_latch timer ms n s h m small k =
    let s' = record s { micros_latch = set s.micros_latch timer s.micros } in
    let (now, kept) = ticks_lem n s' m in
    let held : get_elem? (ticks n s').micros_latch timer ≡ some s.micros =
      ap (λ l. get_elem? l timer) kept
      ∙ get_elem?-eq-get_or s'.micros_latch timer 0
          (omega (arith, length-set s.micros_latch timer s.micros))
      ∙ ap some (get_or-set_self s.micros_latch timer s.micros 0 h) in
    (
      s',
      ground (arith, store-set s.micros_latch timer s.micros h),
      rw (held, mobile_impl_time_check_ms) (ap some (ap₂ ltb (omega arith) (omega (arith, now)))),
    )
