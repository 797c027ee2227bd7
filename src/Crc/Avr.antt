-- ===== src/Crc/Avr.antt =====
-- The checksums of src/stm32/util.c and src/avr/util.c against each other.
use cannuccia.Common.{
  ℕ, zero, suc, ◌*◌, ◌^◌, ◌<◌, ◌≡◌, refl, bit_and, bit_xor, u16, ◌<<<◌, List, [], ◌∷◌, take,
  IsBytes, IsBytes-take, arith, ◌==◌, if◌then◌else◌,
}
use cannuccia.Common.Bits.{bit_and_field, bit_xor_lt}
use cannuccia.Crc.{
  crc_shift, crc_rounds, crc_byte, crc_bytes, crc16, initval, update_bytes, avr_crc16,
}
use cannuccia.Crc.Shift.{crc_shift_lem, crc_shift-lt}
use cannuccia.Crc.Errors.{crc_byte-lt, crc_bytes-lt}

-- The C code that the manual of avr-libc gives as equivalent to `_crc_xmodem_update`:
-- `crc = crc ^ ((uint16_t)data << 8); for (i = 0; i < 8; i++) { if (crc & 0x8000)
-- crc = (crc << 1) ^ 0x1021; else crc <<= 1; }`, over `uint16_t`.
abbrev pub documented_round : ℕ → ℕ
documented_round crc =
    if bit_and crc 0x8000 == 0 then u16 (crc <<< 1) else bit_xor (u16 (crc <<< 1)) 0x1021

abbrev pub documented_rounds : ℕ → ℕ → ℕ
documented_rounds zero crc = crc
documented_rounds (suc rounds) crc = documented_rounds rounds (documented_round crc)

abbrev pub XmodemUpdate : (ℕ → ℕ → ℕ) → Type 0
XmodemUpdate update =
    (crc b : ℕ)
    → crc < 2 ^ 16
    → b < 256
    → update crc b ≡ documented_rounds 8 (bit_xor crc (u16 (b <<< 8)))

round_agrees : (c : ℕ) → c < 2 ^ 16 → documented_round c ≡ crc_shift c
round_agrees c h = ground (arith, crc_shift_lem c h, bit_and_field 15 1 c)

rounds_agree : (n c : ℕ) → c < 2 ^ 16 → documented_rounds n c ≡ crc_rounds n c
unfolding crc_rounds
rounds_agree zero c h = refl
rounds_agree (suc n) c h = rw (round_agrees c h) (rounds_agree n (crc_shift c) (crc_shift-lt c h))

module _ (update : ℕ → ℕ → ℕ) (documented : XmodemUpdate update) where
  update-crc_byte : (c b : ℕ) → c < 2 ^ 16 → b < 256 → update c b ≡ crc_byte c b
  unfolding crc_byte
  update-crc_byte c b h k = ground (
    arith,
    documented c b h k,
    bit_xor_lt 16 c (b * 2 ^ 8),
    rounds_agree 8 (bit_xor c (b * 2 ^ 8)),
  )

  update-crc_bytes :
      (c : ℕ) (bs : List ℕ) → c < 2 ^ 16 → IsBytes bs → update_bytes update c bs ≡ crc_bytes c bs
  unfolding update_bytes crc_bytes
  update-crc_bytes c [] h k = refl
  update-crc_bytes c (b ∷ bs) h k =
      rw (update-crc_byte c b h k.0)
        (update-crc_bytes (crc_byte c b) bs (crc_byte-lt c b h k.0) k.1)

  -- Both targets compute the same checksum of the same bytes.
  pub avr_crc16-crc16 :
      (len : ℕ) (bs : List ℕ) → IsBytes bs → avr_crc16 update len bs ≡ crc16 len bs
  unfolding avr_crc16 crc16
  avr_crc16-crc16 len bs h =
      let bytes = IsBytes-take len bs h in
      omega (
        arith,
        update-crc_bytes initval (take len bs) (omega arith) bytes,
        crc_bytes-lt initval (take len bs) (omega arith) bytes,
      )
