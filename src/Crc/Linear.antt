-- ===== src/Crc/Linear.antt =====
-- The CRC of src/stm32/util.c is linear over `^`, so it takes two bytes as one word.
use cannuccia.Common.{ℕ, zero, suc, ◌+◌, ◌*◌, ◌/◌, ◌%◌, ◌^◌, ◌<◌, ◌≡◌, refl, bit_xor, arith}
use cannuccia.Common.Bits.{
  bit_xor_parts, bit_xor_lt, bit_xor_digit, bit_xor-zero, bit_xor_comm, bit_xor_assoc,
}
use cannuccia.Crc.{crc_shift, crc_rounds, crc_byte, polynomial}
use cannuccia.Crc.Shift.{crc_shift_lem, crc_shift-lt}

-- The two parts of a word: its top bit, and the 15 bits that stay.
crc_shift_top :
    (t r : ℕ) → t < 2 → r < 2 ^ 15 → crc_shift (t * 2 ^ 15 + r) ≡ bit_xor (2 * r) (t * polynomial)
crc_shift_top t r p q =
    ground (arith, crc_shift_lem (t * 2 ^ 15 + r) (omega arith), bit_xor-zero (2 * r))

-- `^` of words in which the polynomial is added to either, to both, or to none.
xor_exchange :
    (a b c d : ℕ) → bit_xor (bit_xor a b) (bit_xor c d) ≡ bit_xor (bit_xor a c) (bit_xor b d)
xor_exchange a b c d = ground (
  arith,
  bit_xor_assoc a b (bit_xor c d),
  bit_xor_assoc b c d,
  bit_xor_comm b c,
  bit_xor_assoc c b d,
  bit_xor_assoc a c (bit_xor b d),
)

xor_multiples :
    (s t : ℕ) → s < 2 → t < 2 → bit_xor s t * polynomial ≡ bit_xor (s * polynomial) (t * polynomial)
xor_multiples zero zero p q = refl
xor_multiples zero (suc zero) p q = refl
xor_multiples (suc zero) zero p q = refl
xor_multiples (suc zero) (suc zero) p q = refl
xor_multiples s (suc (suc t)) p q = absurd (omega arith)
xor_multiples (suc (suc s)) t p q = absurd (omega arith)

shift_parts :
    (s r t q : ℕ)
    → s < 2
    → r < 2 ^ 15
    → t < 2
    → q < 2 ^ 15
    → crc_shift (bit_xor (s * 2 ^ 15 + r) (t * 2 ^ 15 + q))
      ≡ bit_xor (crc_shift (s * 2 ^ 15 + r)) (crc_shift (t * 2 ^ 15 + q))
shift_parts s r t q hs hr ht hq = ground (
  arith,
  bit_xor_parts 15 s t r q hr hq,
  bit_xor_lt 1 s t,
  bit_xor_lt 15 r q,
  crc_shift_top (bit_xor s t) (bit_xor r q),
  crc_shift_top s r hs hr,
  crc_shift_top t q ht hq,
  bit_xor_digit (2 * r) (2 * q),
  xor_multiples s t hs ht,
  xor_exchange (2 * r) (2 * q) (s * polynomial) (t * polynomial),
)

pub crc_shift-bit_xor :
    (a b : ℕ)
    → a < 2 ^ 16
    → b < 2 ^ 16
    → crc_shift (bit_xor a b) ≡ bit_xor (crc_shift a) (crc_shift b)
crc_shift-bit_xor a b p q = ground (
  arith,
  shift_parts (a / 2 ^ 15) (a % 2 ^ 15) (b / 2 ^ 15) (b % 2 ^ 15) (omega arith) (omega arith)
      (omega arith) (omega arith),
)

pub crc_rounds-bit_xor :
    (n a b : ℕ)
    → a < 2 ^ 16
    → b < 2 ^ 16
    → crc_rounds n (bit_xor a b) ≡ bit_xor (crc_rounds n a) (crc_rounds n b)
unfolding crc_rounds
crc_rounds-bit_xor zero a b p q = refl
crc_rounds-bit_xor (suc n) a b p q =
    rw (crc_shift-bit_xor a b p q)
      (crc_rounds-bit_xor n (crc_shift a) (crc_shift b) (crc_shift-lt a p) (crc_shift-lt b q))

shift_small : (c : ℕ) → c < 2 ^ 15 → crc_shift c ≡ 2 * c
shift_small c h = ground (arith, crc_shift_lem c (omega arith))

-- A value in the low byte meets no polynomial for eight rounds.
crc_rounds_low : (b : ℕ) → b < 256 → crc_rounds 8 b ≡ b * 2 ^ 8
unfolding crc_rounds
crc_rounds_low b h = ground (
  arith,
  shift_small b,
  shift_small (2 * b),
  shift_small (2 * (2 * b)),
  shift_small (2 * (2 * (2 * b))),
  shift_small (2 * (2 * (2 * (2 * b)))),
  shift_small (2 * (2 * (2 * (2 * (2 * b))))),
  shift_small (2 * (2 * (2 * (2 * (2 * (2 * b)))))),
  shift_small (2 * (2 * (2 * (2 * (2 * (2 * (2 * b))))))),
)

crc_rounds_twice : (c : ℕ) → crc_rounds 8 (crc_rounds 8 c) ≡ crc_rounds 16 c
unfolding crc_rounds
crc_rounds_twice c = refl

pub crc_two_bytes :
    (c a b : ℕ)
    → c < 2 ^ 16
    → a < 256
    → b < 256
    → crc_byte (crc_byte c a) b ≡ crc_rounds 16 (bit_xor c (a * 2 ^ 8 + b))
unfolding crc_byte
crc_two_bytes c a b hc ha hb =
    let first : bit_xor c (a * 2 ^ 8) < 2 ^ 16 = bit_xor_lt 16 c (a * 2 ^ 8) hc (omega arith) in
    ground (
      arith,
      crc_rounds_low b hb,
      crc_rounds-bit_xor 8 (bit_xor c (a * 2 ^ 8)) b first (omega arith),
      bit_xor_assoc c (a * 2 ^ 8) b,
      bit_xor_parts 8 a 0 0 b (omega arith) hb,
      bit_xor-zero a,
      bit_xor_comm 0 b,
      bit_xor-zero b,
      crc_rounds_twice (bit_xor c (a * 2 ^ 8 + b)),
    )
