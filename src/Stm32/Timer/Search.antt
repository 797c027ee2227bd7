-- ===== src/Stm32/Timer/Search.antt =====
-- The prescaler and the reload value that `cnTimerStart` of src/stm32/timer.c chooses.
use cannuccia.Common.{ℕ, ◌+◌, ◌*◌, ◌^◌, ◌≤◌, ◌<◌, ◌≡◌, ◌⊎◌, if◌then◌else◌, Bool, some}
use cannuccia.Common.Bits.{digit}
use cannuccia.Stm32.Timer.{Timer, handler}

-- The prescaler and the reload value, each plus one, divide the cycles as well as whole numbers
-- can, they fit their registers, and no smaller prescaler would do.
pub record IsPeriod (cycles psc arr : ℕ) : Type 0 where
  pub reload_fits : arr < 2 ^ 16
  pub not_more : (psc + 1) * (arr + 1) ≤ cycles
  pub nearest : cycles < (psc + 1) * (arr + 2)
  pub finest : (psc ≡ 0) ⊎ (2 ^ 16 * psc < cycles)

-- What the loop ends with, `arr + 1` in the second place.
record IsFound (c : ℕ) (r : ℕ × ℕ) : Type 0 where
  below : (r.0 + 1) * r.1 ≤ c
  above : c < (r.0 + 1) * (r.1 + 1)
  positive : 1 ≤ r.1
  reload : r.1 ≤ 0x10000
  prescaler : r.0 < 0x10000
  least : (r.0 ≡ 0) ⊎ (2 ^ 16 * r.0 < c)

-- The timer runs, downwards, with its clock; its underflow, and nothing else, updates it and asks
-- for an interrupt, which NVIC lets through and of which none is pending; the handler of the
-- interrupt then calls the function.
pub record IsStarted {H : Type 0} (oneshot : Bool) (on_timeout : H) (t : Timer H) : Type 0 where
  pub clocked : digit 0 t.apb1enr ≡ 1
  pub counting : digit 0 t.cr1 ≡ 1
  pub downwards : digit 4 t.cr1 ≡ 1
  pub underflow_only : digit 2 t.cr1 ≡ 1
  pub one_pulse : (if oneshot then 1 else 0) ≤ digit 3 t.cr1
  pub applied : digit 0 t.egr ≡ 1
  pub interrupting : digit 0 t.dier ≡ 1
  pub enabled : digit 28 t.iser0 ≡ 1
  pub not_pending : digit 28 t.icpr0 ≡ 1
  pub calls_back : (handler t).0 ≡ some on_timeout
