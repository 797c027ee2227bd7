-- ===== src/Avr/Flash/Hardware.antt =====
-- What the ATmega328p data sheet says of self-programming, as far as src/avr/flash.c relies on it.
use cannuccia.Common.{ℕ, ◌/◌, ◌%◌, ◌<◌, ◌≡◌, bit_and, ◌==◌, if◌then◌else◌}
use cannuccia.Avr.Flash.{Boot, flash_size, page_size}

-- `byte x` is the byte of flash at `x`, and `word i` the word `i` of the temporary page buffer.
pub record SelfProgramming {B : Type 0} (boot : Boot B) (byte word : ℕ → B → ℕ) : Type 0 where
  -- A word of the buffer that is still erased takes what is loaded.
  pub fill_word :
      (a w i : ℕ) (b : B)
      → word (a / 2 % 64) b ≡ 0xFFFF
      → word i (boot.page_fill a w b) ≡ (if a / 2 % 64 == i then w else word i b)
  pub fill_byte : (a w x : ℕ) (b : B) → byte x (boot.page_fill a w b) ≡ byte x b
  -- Erasing a page of flash sets its bits, and leaves the buffer.
  pub erase_byte :
      (a x : ℕ) (b : B)
      → a < flash_size
      → x < flash_size
      → byte x (boot.page_erase a b) ≡ (if x / page_size == a / page_size then 0xFF else byte x b)
  pub erase_word : (a i : ℕ) (b : B) → word i (boot.page_erase a b) ≡ word i b
  -- Writing a page clears the bits that are clear in the buffer, and erases the buffer.
  pub write_even :
      (a x : ℕ) (b : B)
      → a < flash_size
      → x < flash_size
      → x % 2 ≡ 0
      → byte x (boot.page_write a b) ≡ (
          if x / page_size == a / page_size
          then bit_and (word (x / 2 % 64) b % 256) (byte x b)
          else byte x b)
  pub write_odd :
      (a x : ℕ) (b : B)
      → a < flash_size
      → x < flash_size
      → x % 2 ≡ 1
      → byte x (boot.page_write a b) ≡ (
          if x / page_size == a / page_size
          then bit_and (word (x / 2 % 64) b / 256) (byte x b)
          else byte x b)
  pub write_word : (a i : ℕ) (b : B) → word i (boot.page_write a b) ≡ 0xFFFF
  -- The status register is apart from both.
  pub cli_byte : (x : ℕ) (b : B) → byte x (boot.cli b) ≡ byte x b
  pub cli_word : (i : ℕ) (b : B) → word i (boot.cli b) ≡ word i b
  pub status_byte : (v x : ℕ) (b : B) → byte x (boot.set_status v b) ≡ byte x b
  pub status_word : (v i : ℕ) (b : B) → word i (boot.set_status v b) ≡ word i b
