-- ===== src/Avr/Can/Identifier.antt =====
-- `mcpPutEID` and `mcpGetEID` of src/avr/can.c against each other.
use cannuccia.Common.{ℕ, ◌+◌, ◌*◌, ◌/◌, ◌%◌, ◌^◌, ◌<◌, ◌≡◌, ◌↔◌, bit_or, [], ◌∷◌, arith}
use cannuccia.Common.Bits.{bit_and_field, bit_or_sum, bit_or_sum_right, bit_or_parts, bit_or-zero}
use cannuccia.Avr.Can.Registers.{put_eid, get_eid}

-- The second register holds three fields.
sidl : (id v w : ℕ) → v < 4 → w < 8 → bit_or (bit_or 8 v) (w * 2 ^ 5) ≡ w * 32 + (8 + v)
sidl id v w p q = ground (arith, bit_or_sum 2 2 v p, bit_or_sum_right 5 w (8 + v) (omega arith))

pub put_eid_lem :
    (id : ℕ)
    → id < 2 ^ 32
    → put_eid id
      ≡ id / 64 % 256
        ∷ (id / 8 % 8 * 32 + (8 + id / 2 ^ 30))
        ∷ id / 2 ^ 14 % 256
        ∷ id / 2 ^ 22 % 256
        ∷ []
unfolding put_eid
put_eid_lem id h = ground (
  arith,
  bit_and_field 6 8 id,
  bit_and_field 30 2 id,
  bit_and_field 3 3 id,
  bit_and_field 14 8 id,
  bit_and_field 22 8 id,
  sidl id (id / 2 ^ 30) (id / 8 % 8) (omega arith) (omega arith),
  bit_or_sum 2 2 (id / 2 ^ 30) (omega arith),
)

pub get_eid_lem :
    (a b c d : ℕ)
    → a < 256
    → b < 256
    → c < 256
    → d < 256
    → get_eid (a ∷ b ∷ c ∷ d ∷ []) ≡ b % 4 * 2 ^ 30 + d * 2 ^ 22 + c * 2 ^ 14 + a * 8 + b / 32
unfolding get_eid
get_eid_lem a b c d p q r s =
    let low = a * 8 + b / 32 in
    ground (
      arith,
      bit_or_sum_right 3 a 0,
      bit_or_sum_right 30 (b % 4) (a * 8),
      bit_or_sum 3 (b % 4 * 2 ^ 27 + a) (b / 32),
      bit_or_parts 14 (b % 4 * 2 ^ 16) c low 0,
      bit_or_sum 16 (b % 4) c,
      bit_or-zero low,
      bit_or_parts 22 (b % 4 * 2 ^ 8) d (c * 2 ^ 14 + low) 0,
      bit_or_sum 8 (b % 4) d,
      bit_or-zero (c * 2 ^ 14 + low),
    )

-- The identifier that `mcpGetEID` reads from the registers that `mcpPutEID` fills keeps the 18 high
-- bits; the 14 low bits come back three places lower.
pub get_eid-put_eid :
    (id : ℕ) → id < 2 ^ 32 → get_eid (put_eid id) ≡ id / 2 ^ 14 * 2 ^ 14 + id % 2 ^ 14 / 8
get_eid-put_eid id h = rw (put_eid_lem id h) (
    rw
      (get_eid_lem (id / 64 % 256) (id / 8 % 8 * 32 + (8 + id / 2 ^ 30)) (id / 2 ^ 14 % 256)
        (id / 2 ^ 22 % 256) (omega arith) (omega arith) (omega arith) (omega arith))
      (omega arith))

-- So an identifier comes back unchanged exactly when its 14 low bits are clear. The bit that marks
-- an extended identifier is one of them.
pub eid_roundtrip_iff : (id : ℕ) → id < 2 ^ 32 → (get_eid (put_eid id) ≡ id) ↔ (id % 2 ^ 14 ≡ 0)
eid_roundtrip_iff id h = ground (arith, get_eid-put_eid id h)
