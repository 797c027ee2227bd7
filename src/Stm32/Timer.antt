-- ===== src/Stm32/Timer.antt =====
-- src/stm32/timer.c. `H` is the type of a `CNtimeoutFunc`.
pub mod Search
use cannuccia.Common.{
  ℕ, zero, suc, ◌+◌, ◌-◌, ◌*◌, ◌/◌, ◌%◌, ◌^◌, bit_and, bit_or, Bool, true, false, ◌&&◌, Option,
  none, some, leb, ltb, ◌==◌, if◌then◌else◌,
}
use cannuccia.Stm32.Can.{clear_bit}

abbrev pub clock_freq_mhz : ℕ
clock_freq_mhz = 72

-- `timeoutFunc`, and the registers of TIM2, RCC and NVIC that the code uses.
pub record Timer (H : Type 0) : Type 0 where
  pub timeout_func : Option H
  pub cr1 : ℕ
  pub dier : ℕ
  pub sr : ℕ
  pub egr : ℕ
  pub psc : ℕ
  pub arr : ℕ
  pub apb1enr : ℕ
  pub iser0 : ℕ
  pub icer0 : ℕ
  pub icpr0 : ℕ

-- The loop over the prescalers, with `rounds` left: `psc`, and `arr + 1`, which unlike `arr` is
-- never negative. The products are exact while they fit in an `int`.
pub search : ℕ → ℕ → ℕ → ℕ → ℕ × ℕ
search zero psc arr_suc cycles = (psc, arr_suc)
search (suc rounds) psc arr_suc cycles =
    let next = cycles / (psc + 1) in
    let skipped = search rounds (psc + 1) arr_suc cycles in
    let refused = search rounds (psc + 1) next cycles in
    if leb cycles (0x10000 * (psc + 1))
    then (if ltb 1 next && leb next 0x10000 then (psc, next) else refused)
    else skipped

module _ {H : Type 0} where
  -- `cnTimerStart`, with the result of the loop.
  unfoldable pub start_with : ℕ × ℕ → Bool → H → Timer H → Timer H
  unfolding clear_bit
  start_with (psc, arr_suc) oneshot on_timeout t = record t {
    timeout_func = some on_timeout;
    cr1 =
        bit_or
          (bit_or (bit_or (bit_or (clear_bit t.cr1 0x01) 0x10) 0x04) (if oneshot then 0x08 else 0))
          0x01;
    dier = bit_or t.dier 0x01;
    egr = bit_or t.egr 0x01;
    psc = bit_and psc 0xFFFF;
    arr = bit_and (arr_suc + 0xFFFF) 0xFFFF;
    apb1enr = bit_or t.apb1enr 0x01;
    iser0 = bit_or t.iser0 0x10000000;
    icpr0 = bit_or t.icpr0 0x10000000;
  }

  unfoldable pub timer_start : ℕ → Bool → Option H → Timer H → Timer H × Bool
  unfolding start_with
  timer_start delay_us oneshot none t = (t, false)
  timer_start delay_us oneshot (some on_timeout) t =
      let found = search 0x10000 0 0x10000 (clock_freq_mhz * delay_us) in
      if delay_us == 0 then (t, false) else (start_with found oneshot on_timeout t, true)

  -- `cnTimerStop`
  pub timer_stop : Timer H → Timer H
  unfolding clear_bit
  timer_stop t = record t {
    cr1 = clear_bit t.cr1 0x01;
    dier = clear_bit t.dier 0x01;
    icer0 = bit_or t.icer0 0x10000000;
    apb1enr = clear_bit t.apb1enr 0x01;
  }

  -- `tim2Handler`: the function that is called, and the timer behind it.
  unfoldable pub handler : Timer H → Option H × Timer H
  unfolding clear_bit
  handler t = (t.timeout_func, record t { sr = clear_bit t.sr 0x01 })
