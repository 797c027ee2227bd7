-- ===== src/Crc/Shift.antt =====
-- One round of the CRC of src/stm32/util.c: its arithmetic form, its range, and its inverse.
use cannuccia.Common.{
  ℕ, zero, suc, ◌+◌, ◌-◌, ◌*◌, ◌/◌, ◌%◌, ◌^◌, ◌<◌, ◌≡◌, bit_xor, ltb, ◌==◌, if◌then◌else◌, arith,
}
use cannuccia.Common.Bits.{
  bit_and_low, bit_and_field, bit_xor_parts, bit_xor_lt, bit_xor_cancel, bit_xor-parity,
}
use cannuccia.Crc.{crc_shift, crc_rounds, polynomial}

-- The bit that is shifted out decides whether the polynomial is added.
pub crc_shift_lem :
    (c : ℕ)
    → c < 2 ^ 16
    → crc_shift c ≡ (if ltb c 0x8000 then 2 * c else bit_xor (2 * c - 0x10000) polynomial)
unfolding crc_shift
crc_shift_lem c h = ground (
  arith,
  bit_and_field 16 1 (c * 2 ^ 1),
  bit_and_low 16 (bit_xor (c * 2 ^ 1) polynomial),
  bit_xor_parts 16 1 0 (2 * c - 0x10000) polynomial,
  bit_xor_lt 16 (2 * c - 0x10000) polynomial,
)

pub crc_shift-lt : (c : ℕ) → c < 2 ^ 16 → crc_shift c < 2 ^ 16
crc_shift-lt c h = ground (arith, crc_shift_lem c h, bit_xor_lt 16 (2 * c - 0x10000) polynomial)

pub crc_rounds-lt : (n c : ℕ) → c < 2 ^ 16 → crc_rounds n c < 2 ^ 16
unfolding crc_rounds
crc_rounds-lt zero c h = h
crc_rounds-lt (suc n) c h = crc_rounds-lt n (crc_shift c) (crc_shift-lt c h)

-- The polynomial is odd, so the lowest bit of the result tells which branch was taken.
unshift : ℕ → ℕ
unshift v = if v % 2 == 0 then v / 2 else bit_xor v polynomial / 2 + 0x8000

unshift-crc_shift : (c : ℕ) → c < 2 ^ 16 → unshift (crc_shift c) ≡ c
unfolding unshift
unshift-crc_shift c h = ground (
  arith,
  crc_shift_lem c h,
  bit_xor_cancel (2 * c - 0x10000) polynomial,
  bit_xor-parity (2 * c - 0x10000) polynomial,
)

pub crc_shift_injective : (c d : ℕ) → c < 2 ^ 16 → d < 2 ^ 16 → crc_shift c ≡ crc_shift d → c ≡ d
crc_shift_injective c d h k e = ground (arith, unshift-crc_shift c h, unshift-crc_shift d k)

pub crc_rounds_injective :
    (n c d : ℕ) → c < 2 ^ 16 → d < 2 ^ 16 → crc_rounds n c ≡ crc_rounds n d → c ≡ d
unfolding crc_rounds
crc_rounds_injective zero c d h k e = e
crc_rounds_injective (suc n) c d h k e =
    crc_shift_injective c d h k
      (crc_rounds_injective n (crc_shift c) (crc_shift d) (crc_shift-lt c h) (crc_shift-lt d k) e)
