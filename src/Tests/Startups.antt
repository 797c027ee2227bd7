-- ===== src/Tests/Startups.antt =====
-- The theorems on the start-up code of the STM32 target: src/stm32/startup.c, debug.c and can.c.
use cannuccia.Common.{
  ℕ, ◌+◌, ◌%◌, ◌≡◌, ◌↔◌, refl, true, false, none, some, [], ◌∷◌, get_or, ◌==◌, if◌then◌else◌, arith,
}
use cannuccia.Common.Bits.{digit}
use cannuccia.Stm32.Can.{Can, empty_mailbox}
use cannuccia.Stm32.Can.Startup.{Bus, ReadMsr}
use cannuccia.Stm32.Timer.{Timer, timer_start}
use cannuccia.Stm32.Debug.{Pins, Gpio, debug_led}
use cannuccia.Stm32.Debug.Led.{SetsPins, debug_led_lem}
use cannuccia.Stm32.Startup.{Memory, Read, Clock, Layout, tim2_handler, hcf, isrs}
use cannuccia.Stm32.Startup.Vectors.{exceptions, isrs-timer_start}

-- A bus controller that acknowledges a request one read after it.
late_msr : ReadMsr ℕ
late_msr mcr last = (last, mcr % 2)

abbrev idle_can : Can
idle_can = record {
  tsr = 0x1C000000;
  rf0r = 0;
  outbox = empty_mailbox ∷ empty_mailbox ∷ empty_mailbox ∷ [];
  inbox0 = empty_mailbox;
  fm1r = 0;
  fs1r = 0;
  ffa1r = 0;
  fa1r = 0;
  filter = record { r1 = 0; r2 = 0 } ∷ record { r1 = 0; r2 = 0 } ∷ [];
}

-- The registers after a reset, with `SLEEP` cleared.
abbrev reset_bus : Bus
reset_bus = record {
  bus_inited = false;
  mcr = 0x00010000;
  btr = 0x01230000;
  fmr = 0x2A1C0E01;
  apb1enr = 0;
  apb2enr = 0;
  mapr = 0;
  gpiob_crh = 0x44444444;
  can = idle_can;
}

-- Two variables with initial values, two without, and the initial values in the flash memory.
abbrev small_layout : Layout
small_layout = record {
  data_start = 0x20000000;
  data_end = 0x20000002;
  data_load_addr = 0x08000800;
  bss_start = 0x20000004;
  bss_end = 0x20000006;
}

abbrev small_image : Memory
small_image a = if a == 0x08000800 then 0x12 else if a == 0x08000801 then 0x34 else 0xEE

abbrev reset_clock : Clock
reset_clock = record { cr = 0x83; cfgr = 0; acr = 0x30 }

-- All that is asked for is ready one read later.
late_register : Read ℕ
late_register written last = (last, 0x0202000A)

abbrev reset_timer : Timer ℕ
reset_timer = record {
  timeout_func = none;
  cr1 = 0;
  dier = 0;
  sr = 0;
  egr = 0;
  psc = 0;
  arr = 0;
  apb1enr = 0;
  iser0 = 0;
  icer0 = 0;
  icpr0 = 0;
}

isrs-timer_start_example :
    (digit 28 (timer_start 1000 true (some 7) reset_timer).0.iser0 ≡ 1)
    ↔ (get_or isrs (exceptions + 28) hcf ≡ tim2_handler)
unfolding isrs
isrs-timer_start_example = isrs-timer_start 28 1000 true 7 reset_timer (omega arith) (λ e. cc) refl

-- A port that does what the manual says.
abbrev port_c : Pins (ℕ → ℕ)
port_c = record {
  write_bsrr = λ v p k. if digit k v == 1 then 1 else if digit (16 + k) v == 1 then 0 else p k;
  level = λ k p. p k;
}

port_c-SetsPins : SetsPins port_c
port_c-SetsPins = record {
  high = λ k v p h set. ground arith;
  low = λ k v p h clear reset. ground arith;
  kept = λ k v p h clear kept. ground arith;
}

abbrev dark_port : Gpio (ℕ → ℕ)
dark_port = record { apb2enr = 0x10; crh = 0x44544444; port = λ k. 1 }

debug_led_lem_example :
    port_c.level 13 (debug_led port_c true dark_port).port
    ≡ (if 13 == 13 then (if true then 0 else 1) else port_c.level 13 dark_port.port)
debug_led_lem_example = debug_led_lem port_c true 13 dark_port port_c-SetsPins (omega arith)
