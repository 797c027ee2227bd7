-- ===== src/Stm32/Debug/Led.antt =====
-- What `cnDebugLed` of src/stm32/debug.c does to the pins.
use cannuccia.Common.{
  ℕ, ◌+◌, ◌<◌, ◌≡◌, ◌≢◌, refl, Bool, true, false, ◌&&◌, ◌||◌, ◌==◌, ==_iff, Bool-cases, inl, inr,
  if◌then◌else◌, arith,
}
use cannuccia.Common.Bits.{digit, holds_from, all_below, all_below_sound}
use cannuccia.Stm32.Debug.{Pins, Gpio, debug_led}

-- The documented effect of a write to `BSRR`: a one in digit `k` drives pin `k` high, else a one in
-- digit `16 + k` drives it low, else the pin stays as it is.
pub record SetsPins {P : Type 0} (pins : Pins P) : Type 0 where
  pub high : (k v : ℕ) (p : P) → k < 16 → digit k v ≡ 1 → pins.level k (pins.write_bsrr v p) ≡ 1
  pub low :
      (k v : ℕ) (p : P)
      → k < 16
      → digit k v ≡ 0
      → digit (16 + k) v ≡ 1
      → pins.level k (pins.write_bsrr v p) ≡ 0
  pub kept :
      (k v : ℕ) (p : P)
      → k < 16
      → digit k v ≡ 0
      → digit (16 + k) v ≡ 0
      → pins.level k (pins.write_bsrr v p) ≡ pins.level k p

-- Only digit 13 of `v`, and digit 13 + 16, is set.
touches_only : ℕ → ℕ → Bool
touches_only v k = k == 13 || (digit k v == 0 && digit (16 + k) v == 0)

all_touch :
    (all_below 16 (touches_only 0x20000000) ≡ true)
    × (all_below 16 (touches_only 0x00002000) ≡ true)
unfolding holds_from touches_only
all_touch = (refl, refl)

touches_only_lem :
    (v k : ℕ) → touches_only v k ≡ true → k ≢ 13 → (digit k v ≡ 0) × (digit (16 + k) v ≡ 0)
unfolding touches_only
touches_only_lem v k e h = ground arith

-- A write of the two values that `cnDebugLed` writes, to a pin that is not the LED's.
other_pin :
    {P : Type 0} (pins : Pins P) (v k : ℕ) (p : P)
    → SetsPins pins
    → all_below 16 (touches_only v) ≡ true
    → k < 16
    → (k == 13) ≡ false
    → pins.level k (pins.write_bsrr v p) ≡ pins.level k p
other_pin pins v k p sets all h other =
    let (low, high) =
      touches_only_lem v k (all_below_sound 16 (touches_only v) k all h) (λ e. ground arith) in
    sets.kept k v p h low high

-- The LED is on pin 13, and lit while that is low: cnDebugLed drives the pin low to turn it on and
-- high to turn it off, and leaves the other fifteen pins of the port as they were. This holds where
-- a write to BSRR does what its manual says.
pub debug_led_lem :
    {P : Type 0} (pins : Pins P) (on : Bool) (k : ℕ) (g : Gpio P)
    → SetsPins pins
    → k < 16
    → pins.level k (debug_led pins on g).port
      ≡ (if k == 13 then (if on then 0 else 1) else pins.level k g.port)
unfolding debug_led
debug_led_lem pins on k g sets h = elim (Bool-cases (k == 13)) [
  | inl led ↦ let pin : k ≡ 13 = (==_iff k 13).0 led in rw pin (written on)
  | inr other ↦ rw other (left_alone on other)
]
  where
    written :
        (b : Bool)
        → pins.level 13 (pins.write_bsrr (if b then 0x20000000 else 0x00002000) g.port)
          ≡ (if b then 0 else 1)
    written true = sets.low 13 0x20000000 g.port (omega arith) refl refl
    written false = sets.high 13 0x00002000 g.port (omega arith) refl

    left_alone :
        (b : Bool)
        → (k == 13) ≡ false
        → pins.level k (pins.write_bsrr (if b then 0x20000000 else 0x00002000) g.port)
          ≡ pins.level k g.port
    left_alone true e = other_pin pins 0x20000000 k g.port sets all_touch.0 h e
    left_alone false e = other_pin pins 0x00002000 k g.port sets all_touch.1 h e
