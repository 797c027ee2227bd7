-- ===== src/Avr/Timer/Count.antt =====
-- The prescaler and the count that `cnTimerStart` of src/avr/timer.c chooses.
use cannuccia.Common.{
  ℕ, ◌+◌, ◌-◌, ◌*◌, ◌^◌, ◌≤◌, ◌<◌, ◌≡◌, refl, ◌⊎◌, inr, bit_and, Bool, true, false, some, u32, ◌==◌,
  if◌then◌else◌, arith,
}
use cannuccia.Common.Bits.{bit_and_low, digit, set_digit}
use cannuccia.Avr.Timer.{Timer, cycles_per_us, prescalers, choose, timer_start, overflow}

-- The factor that the data sheet gives for a value of `TCCR1B`.
abbrev pub prescaler_of : ℕ → ℕ
prescaler_of reg =
    if reg == 1
    then 1
    else if reg == 2
    then 8
    else if reg == 3
    then 64
    else if reg == 4
    then 256
    else 1024

-- The cycles after which a counter that counts up from `cnt` overflows.
abbrev pub cycles_to_overflow : ℕ → ℕ → ℕ
cycles_to_overflow cnt reg = (2 ^ 16 - cnt) * prescaler_of reg

-- What is chosen for `cycles` cycles: they are a whole number of ticks of the finest prescaler with
-- which the counter can hold that number. The counter starts from it, and overflows after all but
-- that many of its 2 ^ 16 ticks.
pub record IsCount (cycles cnt reg : ℕ) : Type 0 where
  pub count_fits : cnt < 2 ^ 16
  pub not_more : cnt * prescaler_of reg ≤ cycles
  pub nearest : cycles < (cnt + 1) * prescaler_of reg
  pub finest : (reg ≡ 1) ⊎ (2 ^ 16 * prescaler_of (reg - 1) ≤ cycles)
  pub not_early : 2 ^ 16 * prescaler_of reg ≤ cycles_to_overflow cnt reg + cycles
  pub not_late : cycles_to_overflow cnt reg + cycles < (2 ^ 16 + 1) * prescaler_of reg

choose-IsCount :
    (cycles : ℕ)
    → cycles < 2 ^ 26
    → IsCount cycles (choose cycles prescalers).0 (choose cycles prescalers).1
unfolding choose
choose-IsCount cycles h = record {
  count_fits = ground arith;
  not_more = ground arith;
  nearest = ground arith;
  finest = ground arith;
  not_early = ground arith;
  not_late = ground arith;
}

-- The overflow asks for an interrupt, interrupts are on, and the handler calls the function.
pub record IsStarted {H : Type 0} (oneshot : Bool) (on_timeout : H) (t : Timer H) : Type 0 where
  pub interrupting : digit 0 t.timsk1 ≡ 1
  pub interrupts_on : t.interrupts ≡ true
  pub calls_back : (overflow t).0 ≡ some on_timeout
  pub once : t.timer_oneshot ≡ oneshot

-- A timer that is started for a positive delay of less than 2 ^ 22 microseconds has an interrupt at
-- its overflow whose handler calls the given function. Its counter starts from the delay in ticks
-- of the finest prescaler with which it can hold them; as it counts up, the interrupt comes not
-- after the delay, but after 2 ^ 16 ticks less the delay, to within a tick.
pub timer_start-IsCount :
    {H : Type 0} (delay_us : ℕ) (oneshot : Bool) (on_timeout : H) (t : Timer H)
    → 0 < delay_us
    → delay_us < 2 ^ 22
    → let (after, ok) = timer_start delay_us oneshot (some on_timeout) t in
      (ok ≡ true)
      × IsStarted oneshot on_timeout after
      × IsCount (cycles_per_us * delay_us) after.tcnt1 after.tccr1b
unfolding timer_start overflow
timer_start-IsCount delay_us oneshot on_timeout t pos h =
    let cycles = cycles_per_us * delay_us in
    let exact : u32 cycles ≡ cycles = omega arith in
    let started : (delay_us == 0) ≡ false = ground arith in
    let count = choose-IsCount cycles (omega arith) in
    let kept : bit_and (choose cycles prescalers).0 0xFFFF ≡ (choose cycles prescalers).0 =
      omega (arith, bit_and_low 16 (choose cycles prescalers).0, count.count_fits) in
    rw (started, exact)
      (rw kept (
        refl,
        record {
          interrupting = set_digit 0 t.timsk1 0x01 (inr refl);
          interrupts_on = refl;
          calls_back = refl;
          once = refl;
        },
        count,
      ))
