-- ===== src/Common/Bits.antt =====
-- `&`, `|` and `^` at variables, for the masks, fields and shifts that the firmware uses.
mod Step
mod Masks
mod Xor
mod Table
mod Digit
pub use Step.{bit_and_halves, bit_or_halves, bit_xor_halves}
pub use Masks.*
pub use Xor.*
pub use Digit.{digit, bit_or-digit, set_digit}
unfoldable pub use Table.{holds_from, all_below}
pub use Table.{holds_from, all_below_sound}
