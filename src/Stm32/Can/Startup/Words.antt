-- ===== src/Stm32/Can/Startup/Words.antt =====
-- What `|=` and `&= ~` of src/stm32/can.c do to the fields of a register.
use cannuccia.Common.{ℕ, ◌*◌, ◌/◌, ◌%◌, ◌^◌, ◌≤◌, ◌<◌, ◌≡◌, bit_or, arith}
use cannuccia.Common.Bits.{
  bit_and_halves, bit_or_halves, bit_or-zero, bit_and_field, bit_or-digit, digit,
}
use cannuccia.Stm32.Can.{clear_bit}

-- `x | 1` and `x & ~1`
pub set_bit0 : (x : ℕ) → (bit_or x 0x01 % 2 ≡ 1) × (bit_or x 0x01 / 2 ≡ x / 2)
set_bit0 x = (
  omega (arith, bit_or_halves x 1, bit_or-zero (x / 2)),
  omega (arith, bit_or_halves x 1, bit_or-zero (x / 2)),
)

pub clear_bit0 : (x : ℕ) → x < 2 ^ 32 → clear_bit x 0x01 ≡ x / 2 * 2
unfolding clear_bit
clear_bit0 x h = omega (arith, bit_and_field 1 31 x)

pub clear_bit-even : (x : ℕ) → clear_bit x 0x01 % 2 ≡ 0
unfolding clear_bit
clear_bit-even x = omega (arith, bit_and_field 1 31 x)

-- `x & ~2` of an even number.
pub clear_bit1 : (x : ℕ) → x < 2 ^ 32 → x % 2 ≡ 0 → clear_bit x 0x02 ≡ x / 4 * 4
unfolding clear_bit
clear_bit1 x h even = omega (arith, bit_and_halves x 0xFFFFFFFD, bit_and_field 1 30 (x / 2))

-- `x | 0x60`
pub record IsSet60 (x y : ℕ) : Type 0 where
  pub below : y % 32 ≡ x % 32
  pub set : y / 32 % 4 ≡ 3
  pub above : y / 128 ≡ x / 128

pub bit_or-IsSet60 : (x : ℕ) → IsSet60 x (bit_or x 0x60)
bit_or-IsSet60 x =
    let h0 = bit_or_halves x 0x60 in
    let h1 = bit_or_halves (x / 2) 0x30 in
    let h2 = bit_or_halves (x / 2 / 2) 0x18 in
    let h3 = bit_or_halves (x / 2 / 2 / 2) 0x0C in
    let h4 = bit_or_halves (x / 2 / 2 / 2 / 2) 0x06 in
    let h5 = bit_or_halves (x / 2 / 2 / 2 / 2 / 2) 0x03 in
    let h6 = bit_or_halves (x / 2 / 2 / 2 / 2 / 2 / 2) 0x01 in
    let h7 = bit_or-zero (x / 2 / 2 / 2 / 2 / 2 / 2 / 2) in
    record {
      below = omega (arith, h0, h1, h2, h3, h4, h5, h6, h7);
      set = omega (arith, h0, h1, h2, h3, h4, h5, h6, h7);
      above = omega (arith, h0, h1, h2, h3, h4, h5, h6, h7);
    }

-- `|=` clears no bit.
pub bit_or_keeps : (k x y : ℕ) → digit k x ≤ digit k (bit_or x y)
bit_or_keeps k x y = omega (arith, bit_or-digit k x y)
