-- ===== src/Tests/Codecs.antt =====
-- The theorems on src/common/util.h, src/common/can_msgs.h and the checksums.
use native.Mathlib.Nat.{pow-suc}
use cannuccia.Common.{
  ℕ, zero, suc, ◌+◌, ◌*◌, ◌/◌, ◌%◌, ◌^◌, ◌≤◌, ◌<◌, ◌≡◌, refl, ap, ◌↔◌, inl, inr, bit_xor, true,
  some, List, [], ◌∷◌, ◌++◌, IsBytes, u16, ◌<<<◌, ◌==◌, if◌then◌else◌, arith, Bool-cases,
}
use cannuccia.Util.{read_u32_le, write_u32_le, log2_builtin, log2_portable}
use cannuccia.Util.Endian.{read_u32_le-write_u32_le}
use cannuccia.Util.Log2.{log2_portable_lem, CountsTrailingZeros, builtin-portable_iff}
use cannuccia.Protocol.{
  seek, unlock, command, command_id, dev_mask, tx_filter_id, tx_filter_mask, accepts,
}
use cannuccia.Protocol.Addressing.{command-dev_mask, accepts_iff}
use cannuccia.Crc.{crc16, avr_crc16}
use cannuccia.Crc.Errors.{crc16_detects_burst, crc16_residue_iff}
use cannuccia.Crc.Avr.{documented_rounds, XmodemUpdate, avr_crc16-crc16}

read_u32_le-write_u32_le_example : read_u32_le (write_u32_le 0xDEADBEEF) ≡ 0xDEADBEEF
read_u32_le-write_u32_le_example = read_u32_le-write_u32_le 0xDEADBEEF (omega arith)

log2_portable_lem_example :
    (k : ℕ) × (log2_portable 1000 ≡ some k) × (2 ^ k ≤ 1000) × (1000 < 2 ^ suc k)
log2_portable_lem_example = log2_portable_lem 1000 (omega arith)

-- A function that counts trailing zero bits.
ctz_fuel : ℕ → ℕ → ℕ
ctz_fuel zero n = 0
ctz_fuel (suc fuel) n = let rest = ctz_fuel fuel (n / 2) in if n % 2 == 1 then 0 else suc rest

ctz_fuel_lem : (fuel n : ℕ) → 0 < n → n ≤ fuel → (q : ℕ) × (n ≡ (2 * q + 1) * 2 ^ ctz_fuel fuel n)
unfolding ctz_fuel
ctz_fuel_lem zero n pos h = absurd (omega arith)
ctz_fuel_lem (suc fuel) n pos h = elim (Bool-cases (n % 2 == 1)) [
  | inl odd ↦ rw odd (n / 2, ground arith)
  | inr even ↦
      let (q, e) = ctz_fuel_lem fuel (n / 2) (ground arith) (omega arith) in
      let t = ctz_fuel fuel (n / 2) in
      let double : (2 * q + 1) * 2 ^ suc t ≡ 2 * ((2 * q + 1) * 2 ^ t) =
        omega (arith, pow-suc 2 t, ap (λ (x : ℕ). (2 * q + 1) * x) (pow-suc 2 t)) in
      rw even (q, ground arith)
]

abbrev ctz : ℕ → ℕ
ctz n = ctz_fuel n n

ctz_counts : CountsTrailingZeros ctz
ctz_counts n pos = ctz_fuel_lem n n pos (omega arith)

builtin-portable_iff_example : (log2_builtin ctz 12 ≡ log2_portable 12) ↔ ((j : ℕ) × (12 ≡ 2 ^ j))
builtin-portable_iff_example = builtin-portable_iff ctz ctz_counts 12 (omega arith)

command-dev_mask_example : command (dev_mask (command_id seek) 200) ≡ seek
command-dev_mask_example = command-dev_mask seek 200 (λ e. cc) (omega arith)

abbrev seven : ℕ
seven = 7

abbrev eight : ℕ
eight = 8

accepts_iff_example :
    (accepts (dev_mask tx_filter_id seven) tx_filter_mask (dev_mask (command_id unlock) eight)
      ≡ true)
    ↔ (seven ≡ eight)
accepts_iff_example = accepts_iff unlock seven eight (λ e. cc) (omega arith) (omega arith)

abbrev digits : List ℕ
digits = 0x31 ∷ 0x32 ∷ 0x33 ∷ []

digits-IsBytes : IsBytes digits
digits-IsBytes = (omega arith, (omega arith, (omega arith, tt)))

abbrev update : ℕ → ℕ → ℕ
update crc b = documented_rounds 8 (bit_xor crc (u16 (b <<< 8)))

update_documented : XmodemUpdate update
update_documented crc b h k = refl

avr_crc16-crc16_example : avr_crc16 update 3 digits ≡ crc16 3 digits
avr_crc16-crc16_example = avr_crc16-crc16 update update_documented 3 digits digits-IsBytes

crc16_residue_iff_example :
    (crc16 5 (digits ++ 0x97 ∷ 0x52 ∷ []) ≡ 0) ↔ (crc16 3 digits ≡ 0x97 * 256 + 0x52)
crc16_residue_iff_example =
    crc16_residue_iff digits 0x97 0x52 digits-IsBytes (omega arith) (omega arith)

abbrev same_byte : ℕ
same_byte = 0xFF

crc16_detects_burst_example : (same_byte ≡ 0xFF) × (same_byte ≡ 0xFF)
crc16_detects_burst_example =
    crc16_detects_burst digits digits same_byte same_byte 0xFF 0xFF digits-IsBytes digits-IsBytes
      (omega arith, (omega arith, tt)) (omega arith, (omega arith, tt)) refl
