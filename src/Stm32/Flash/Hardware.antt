-- ===== src/Stm32/Flash/Hardware.antt =====
-- What the programming manual PM0075 says of the flash controller, as far as src/stm32/flash.c
-- relies on it.
use cannuccia.Common.{ℕ, ◌/◌, ◌%◌, ◌≡◌, bit_and, Bool, true, false, ◌==◌, if◌then◌else◌}
use cannuccia.Stm32.Can.{clear_bit}
use cannuccia.Stm32.Flash.{Controller, page_size, is_locked}

-- `BSY` is clear in the next read of `SR`.
abbrev pub is_idle : {B : Type 0} → Controller B → B → Bool
is_idle controller b = bit_and (controller.read_sr b).0 0x01 == 0

-- `half x b` is the half-word at the even address `x`, once the operation in progress is over, and
-- `ar b` the register `AR`.
pub record FlashMemory {B : Type 0} (controller : Controller B) (half : ℕ → B → ℕ) (ar : B → ℕ)
    : Type 0 where
  -- Reading the status changes no content. `STRT` is reset when `BSY` is.
  pub half_sr : (x : ℕ) (b : B) → half x (controller.read_sr b).1 ≡ half x b
  pub cr_sr_busy :
      (b : B)
      → is_idle controller b ≡ false
      → controller.read_cr (controller.read_sr b).1 ≡ controller.read_cr b
  pub cr_sr_idle :
      (b : B)
      → is_idle controller b ≡ true
      → controller.read_cr (controller.read_sr b).1 ≡ clear_bit (controller.read_cr b) 0x40
  pub idle_sr :
      (b : B) → is_idle controller b ≡ true → is_idle controller (controller.read_sr b).1 ≡ true
  -- The registers of an unlocked controller hold what is written.
  pub cr_write :
      (v : ℕ) (b : B)
      → is_locked controller b ≡ false
      → controller.read_cr (controller.write_cr v b) ≡ v
  pub ar_write : (a : ℕ) (b : B) → is_locked controller b ≡ false → ar (controller.write_ar a b) ≡ a
  pub cr_ar : (a : ℕ) (b : B) → controller.read_cr (controller.write_ar a b) ≡ controller.read_cr b
  pub half_ar : (x a : ℕ) (b : B) → half x (controller.write_ar a b) ≡ half x b
  pub idle_ar :
      (a : ℕ) (b : B)
      → is_idle controller b ≡ true
      → is_idle controller (controller.write_ar a b) ≡ true
  -- A write of `CR` without `STRT` starts nothing.
  pub half_cr : (x v : ℕ) (b : B) → bit_and v 0x40 ≡ 0 → half x (controller.write_cr v b) ≡ half x b
  pub idle_cr :
      (v : ℕ) (b : B)
      → bit_and v 0x40 ≡ 0
      → is_idle controller b ≡ true
      → is_idle controller (controller.write_cr v b) ≡ true
  -- `STRT` with `PER` alone erases the page at `AR`.
  pub erase_half :
      (x : ℕ) (b : B)
      → is_locked controller b ≡ false
      → is_idle controller b ≡ true
      → half x (controller.write_cr 0x42 b)
        ≡ (if x / page_size == ar b / page_size then 0xFFFF else half x b)
  -- With `PG` alone, a half-word that is erased takes what is written.
  pub program_half :
      (d v x : ℕ) (b : B)
      → controller.read_cr b ≡ 0x01
      → is_idle controller b ≡ true
      → d % 2 ≡ 0
      → half d b ≡ 0xFFFF
      → half x (controller.write_half d v b) ≡ (if x == d then v else half x b)
  pub cr_half :
      (d v : ℕ) (b : B) → controller.read_cr (controller.write_half d v b) ≡ controller.read_cr b
