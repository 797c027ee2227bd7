-- ===== src/Stm32/Debug.antt =====
-- src/stm32/debug.c. `P` is the hidden state of GPIO port C.
pub mod Led
use cannuccia.Common.{ℕ, bit_or, Bool, true, false, if◌then◌else◌}

-- The write to `GPIOC_BSRR`, and the levels of the pins, 0 or 1.
pub record Pins (P : Type 0) : Type 0 where
  pub write_bsrr : ℕ → P → P
  pub level : ℕ → P → ℕ

-- `RCC_APB2ENR`, `GPIOC_CRH` and the port.
pub record Gpio (P : Type 0) : Type 0 where
  pub apb2enr : ℕ
  pub crh : ℕ
  pub port : P

module _ {P : Type 0} (pins : Pins P) where
  -- `cnDebugInit`, which returns 1.
  unfoldable pub debug_init : Gpio P → Gpio P × Bool
  debug_init g =
      (record g { apb2enr = bit_or g.apb2enr 0x00000010; crh = bit_or g.crh 0x00100000 }, true)

  -- `cnDebugLed`
  unfoldable pub debug_led : Bool → Gpio P → Gpio P
  debug_led on g = record g {
    port = pins.write_bsrr (if on then 0x20000000 else 0x00002000) g.port;
  }
