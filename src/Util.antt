-- ===== src/Util.antt =====
-- src/common/util.h: little-endian integers and the integer logarithm.
pub mod Endian
pub mod Log2
use cannuccia.Common.{
  ℕ, zero, suc, ◌+◌, ◌-◌, ◌*◌, ◌/◌, ◌^◌, bit_and, bit_or, u16, u32, ◌<<<◌, ◌>>>◌, List, [], ◌∷◌,
  Option, none, some, get_or, ◌==◌, if◌then◌else◌,
}

-- `cnReadU16LE`
pub read_u16_le : List ℕ → ℕ
read_u16_le bytes = bit_or (get_or bytes 0 0) (u16 (get_or bytes 1 0 <<< 8))

-- `cnWriteU16LE`: the two bytes that are written.
unfoldable pub write_u16_le : ℕ → List ℕ
write_u16_le u = bit_and u 0x00FF ∷ bit_and u 0xFF00 >>> 8 ∷ []

-- `cnReadU32LE`
pub read_u32_le : List ℕ → ℕ
read_u32_le bytes =
    bit_or
      (bit_or (bit_or (get_or bytes 0 0) (u32 (get_or bytes 1 0 <<< 8)))
        (u32 (get_or bytes 2 0 <<< 16)))
      (u32 (get_or bytes 3 0 <<< 24))

-- `cnWriteU32LE`: the four bytes that are written.
unfoldable pub write_u32_le : ℕ → List ℕ
write_u32_le u =
    bit_and u 0x000000FF
    ∷ bit_and u 0x0000FF00 >>> 8
    ∷ bit_and u 0x00FF0000 >>> 16
    ∷ bit_and u 0xFF000000 >>> 24
    ∷ []

-- `cnLog2I` as GCC and Clang compile it; `ctz` is their `__builtin_ctz`, and `none` the -1.
pub log2_builtin : (ℕ → ℕ) → ℕ → Option ℕ
log2_builtin ctz n = if n == 0 then none else some (ctz n)

-- The rounds of `while(n) { n >>= 1; lg2 ++; }`. Fuel `n` is enough, since each round halves `n`.
pub halvings : ℕ → ℕ → ℕ
halvings zero n = 0
halvings (suc fuel) n = let rest = halvings fuel (n / 2) in if n == 0 then 0 else suc rest

-- `cnLog2I` for other compilers: `lg2` starts from -1 and the loop is entered at least once.
pub log2_portable : ℕ → Option ℕ
unfolding halvings
log2_portable n = if n == 0 then none else some (halvings n n - 1)
