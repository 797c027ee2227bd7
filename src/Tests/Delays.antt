-- ===== src/Tests/Delays.antt =====
-- The theorems on the timers, for the timeout of src/common/main.c: three seconds.
use cannuccia.Common.{◌*◌, ◌≡◌, Bool, true, false, none, some, arith}
use cannuccia.Avr.Timer as AvrTimer
use cannuccia.Avr.Timer.{cycles_per_us}
use cannuccia.Avr.Timer.Count as AvrCount
use cannuccia.Stm32.Timer.Search as Stm32Search
use cannuccia.Avr.Timer.Count.{IsCount, timer_start-IsCount}
use cannuccia.Stm32.Timer as Stm32Timer

abbrev avr_timer : AvrTimer.Timer Bool
avr_timer = record {
  timeout_func = none;
  timer_oneshot = false;
  timsk1 = 0;
  tcnt1 = 0;
  tccr1a = 0;
  tccr1b = 0;
  interrupts = false;
}

timer_start-IsCount_example :
    let (after, ok) = AvrTimer.timer_start 3000000 true (some true) avr_timer in
    (ok ≡ true)
    × AvrCount.IsStarted true true after
    × IsCount (cycles_per_us * 3000000) after.tcnt1 after.tccr1b
timer_start-IsCount_example =
    timer_start-IsCount 3000000 true true avr_timer (omega arith) (omega arith)

abbrev stm32_timer : Stm32Timer.Timer Bool
stm32_timer = record {
  timeout_func = none;
  cr1 = 0;
  dier = 0;
  sr = 0;
  egr = 0;
  psc = 0;
  arr = 0;
  apb1enr = 0;
  iser0 = 0;
  icer0 = 0;
  icpr0 = 0;
}
