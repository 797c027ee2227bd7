-- ===== src/Crc.antt =====
-- `cnCRC16` on both targets: src/stm32/util.c computes it bit by bit, src/avr/util.c calls
-- `_crc_xmodem_update` of avr-libc, which is the parameter `update` here.
pub mod Shift
pub mod Linear
pub mod Errors
pub mod Avr
use cannuccia.Common.{
  ℕ, zero, suc, ◌*◌, ◌^◌, bit_and, bit_xor, u16, ◌<<<◌, List, [], ◌∷◌, take, ◌==◌, if◌then◌else◌,
}

abbrev pub initval : ℕ
initval = 0x0000

abbrev pub polynomial : ℕ
polynomial = 0x1021

-- One round of the inner loop. `int` has 32 bits, so the shift of a value below 2 ^ 16 is exact.
pub crc_shift : ℕ → ℕ
crc_shift crc =
    let shifted = crc <<< 1 in
    if bit_and shifted 0x10000 == 0 then shifted else bit_and (bit_xor shifted polynomial) 0xFFFF

-- `rounds` rounds of the inner loop.
pub crc_rounds : ℕ → ℕ → ℕ
crc_rounds zero crc = crc
crc_rounds (suc rounds) crc = crc_rounds rounds (crc_shift crc)

-- One round of the outer loop.
pub crc_byte : ℕ → ℕ → ℕ
crc_byte crc b = crc_rounds 8 (bit_xor crc (b <<< 8))

-- The outer loop, over the bytes from `it` to `data + len`.
pub crc_bytes : ℕ → List ℕ → ℕ
crc_bytes crc [] = crc
crc_bytes crc (b ∷ bs) = crc_bytes (crc_byte crc b) bs

-- `cnCRC16` of src/stm32/util.c
pub crc16 : ℕ → List ℕ → ℕ
unfolding crc_shift crc_rounds crc_byte crc_bytes
crc16 len bytes = u16 (crc_bytes initval (take len bytes))

-- The loop of src/avr/util.c
pub update_bytes : (ℕ → ℕ → ℕ) → ℕ → List ℕ → ℕ
update_bytes update crc [] = crc
update_bytes update crc (b ∷ bs) = update_bytes update (update crc b) bs

-- `cnCRC16` of src/avr/util.c
pub avr_crc16 : (ℕ → ℕ → ℕ) → ℕ → List ℕ → ℕ
unfolding update_bytes
avr_crc16 update len bytes = update_bytes update 0x0000 (take len bytes)
