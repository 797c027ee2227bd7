-- ===== src/Avr/Timer.antt =====
-- src/avr/timer.c at its default `F_CPU` of 16 MHz. `H` is the type of a `CNtimeoutFunc`.
pub mod Count
use cannuccia.Common.{
  ℕ, ◌+◌, ◌-◌, ◌*◌, ◌/◌, ◌%◌, ◌^◌, bit_and, bit_or, Bool, true, false, Option, none, some, List, [],
  ◌∷◌, u32, leb, ◌==◌, if◌then◌else◌,
}

-- `F_CPU / 1000000UL`
abbrev pub cycles_per_us : ℕ
cycles_per_us = 16

-- The static variables, the registers of timer 1, and the interrupt flag.
pub record Timer (H : Type 0) : Type 0 where
  pub timeout_func : Option H
  pub timer_oneshot : Bool
  pub timsk1 : ℕ
  pub tcnt1 : ℕ
  pub tccr1a : ℕ
  pub tccr1b : ℕ
  pub interrupts : Bool

-- `PSCS` and `PSC_REGS`
abbrev pub prescalers : List (ℕ × ℕ)
prescalers = (1, 1) ∷ (8, 2) ∷ (64, 3) ∷ (256, 4) ∷ (1024, 5) ∷ []

-- The loop over the prescalers: `cnt` and the value for `TCCR1B`. Where none is chosen, both are
-- the greatest possible.
pub choose : ℕ → List (ℕ × ℕ) → ℕ × ℕ
choose cycles [] = (0xFFFF, 5)
choose cycles ((psc, reg) ∷ rest) =
    let next = choose cycles rest in if leb (cycles / psc) 0xFFFF then (cycles / psc, reg) else next

module _ {H : Type 0} where
  -- `cnTimerStart`
  unfoldable pub timer_start : ℕ → Bool → Option H → Timer H → Timer H × Bool
  unfolding choose
  timer_start delay_us oneshot none t = (t, false)
  timer_start delay_us oneshot (some on_timeout) t =
      let (cnt, reg) = choose (u32 (cycles_per_us * delay_us)) prescalers in
      if delay_us == 0 then (t, false) else (
        record t {
          timeout_func = some on_timeout;
          timer_oneshot = oneshot;
          timsk1 = bit_or t.timsk1 0x01;
          tcnt1 = bit_and cnt 0xFFFF;
          tccr1b = reg;
          interrupts = true;
        },
        true,
      )

  -- `cnTimerStop`
  pub timer_stop : Timer H → Timer H
  timer_stop t = record t {
    timeout_func = none;
    timsk1 = bit_and t.timsk1 0xFE;
    tcnt1 = 0;
    tccr1a = 0;
    tccr1b = 0;
  }

  -- `ISR(TIMER1_OVF_vect)`: the function that is called, and the timer behind it. (The function
  -- that main.c passes leaves the timer alone.)
  unfoldable pub overflow : Timer H → Option H × Timer H
  unfolding timer_stop
  overflow t = (t.timeout_func, if t.timer_oneshot then timer_stop t else t)
