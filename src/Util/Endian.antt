-- ===== src/Util/Endian.antt =====
-- The little-endian codecs of src/common/util.h against one another.
use cannuccia.Common.{ℕ, ◌+◌, ◌*◌, ◌/◌, ◌%◌, ◌^◌, ◌<◌, ◌≡◌, [], ◌∷◌, arith}
use cannuccia.Common.Bits.{bit_and_low, bit_and_field, bit_or_sum_right}
use cannuccia.Util.{read_u16_le, write_u16_le, read_u32_le, write_u32_le}

pub write_u16_le_lem : (u : ℕ) → u < 2 ^ 16 → write_u16_le u ≡ u % 256 ∷ u / 256 ∷ []
unfolding write_u16_le
write_u16_le_lem u h = ground (arith, bit_and_low 8 u, bit_and_field 8 8 u)

pub read_u16_le_lem : (a b : ℕ) → a < 256 → b < 256 → read_u16_le (a ∷ b ∷ []) ≡ a + b * 256
unfolding read_u16_le
read_u16_le_lem a b p q = ground (arith, bit_or_sum_right 8 b a)

pub write_u32_le_lem :
    (u : ℕ)
    → u < 2 ^ 32
    → write_u32_le u ≡ u % 256 ∷ u / 256 % 256 ∷ u / 65536 % 256 ∷ u / 16777216 ∷ []
unfolding write_u32_le
write_u32_le_lem u h =
    ground (arith, bit_and_low 8 u, bit_and_field 8 8 u, bit_and_field 16 8 u, bit_and_field 24 8 u)

pub read_u32_le_lem :
    (a b c d : ℕ)
    → a < 256
    → b < 256
    → c < 256
    → d < 256
    → read_u32_le (a ∷ b ∷ c ∷ d ∷ []) ≡ a + b * 256 + c * 65536 + d * 16777216
unfolding read_u32_le
read_u32_le_lem a b c d p q r s = ground (
  arith,
  bit_or_sum_right 8 b a,
  bit_or_sum_right 16 c (b * 2 ^ 8 + a),
  bit_or_sum_right 24 d (c * 2 ^ 16 + (b * 2 ^ 8 + a)),
)

-- A number of 16 bits comes back from the two bytes that `cnWriteU16LE` writes.
pub read_u16_le-write_u16_le : (u : ℕ) → u < 2 ^ 16 → read_u16_le (write_u16_le u) ≡ u
read_u16_le-write_u16_le u h =
    rw (write_u16_le_lem u h)
      (rw (read_u16_le_lem (u % 256) (u / 256) (omega arith) (omega arith)) (omega arith))

-- A number of 32 bits comes back from the four bytes that `cnWriteU32LE` writes.
pub read_u32_le-write_u32_le : (u : ℕ) → u < 2 ^ 32 → read_u32_le (write_u32_le u) ≡ u
read_u32_le-write_u32_le u h = rw (write_u32_le_lem u h) (
    rw
      (read_u32_le_lem (u % 256) (u / 256 % 256) (u / 65536 % 256) (u / 16777216) (omega arith)
        (omega arith) (omega arith) (omega arith))
      (omega arith))

-- Four bytes come back from the number that `cnReadU32LE` reads from them.
pub write_u32_le-read_u32_le :
    (a b c d : ℕ)
    → a < 256
    → b < 256
    → c < 256
    → d < 256
    → write_u32_le (read_u32_le (a ∷ b ∷ c ∷ d ∷ [])) ≡ a ∷ b ∷ c ∷ d ∷ []
write_u32_le-read_u32_le a b c d p q r s =
    rw (read_u32_le_lem a b c d p q r s)
      (rw (write_u32_le_lem (a + b * 256 + c * 65536 + d * 16777216) (omega arith)) (ground arith))
