-- ===== src/Tests/Chip.antt =====
-- A flash memory that is made of functions, with its page buffer.
use cannuccia.Common.{ℕ, ◌/◌, ◌%◌, refl, bit_and, ◌==◌, if◌then◌else◌, arith}
use cannuccia.Avr.Flash.{Boot, page_size}
use cannuccia.Avr.Flash.Hardware.{SelfProgramming}

pub record Chip : Type 0 where
  pub flash : ℕ → ℕ
  pub buffer : ℕ → ℕ

abbrev pub half : ℕ → ℕ → ℕ
half x w = if x % 2 == 0 then w % 256 else w / 256

abbrev pub chip_boot : Boot Chip
chip_boot = record {
  page_fill = λ a w c. record c { buffer = λ i. if a / 2 % 64 == i then w else c.buffer i };
  page_erase =
      λ a c. record c { flash = λ x. if x / page_size == a / page_size then 0xFF else c.flash x };
  page_write = λ a c. record {
    flash = λ x.
        if x / page_size == a / page_size
        then bit_and (half x (c.buffer (x / 2 % 64))) (c.flash x)
        else c.flash x;
    buffer = λ i. 0xFFFF;
  };
  rww_enable = λ c. c;
  eeprom_read_byte = λ a c. 7;
  status = λ c. 0;
  cli = λ c. c;
  set_status = λ v c. c;
  jump_zero = λ c. c;
}

abbrev pub byte : ℕ → Chip → ℕ
byte x c = c.flash x

abbrev pub word : ℕ → Chip → ℕ
word i c = c.buffer i

pub chip_laws : SelfProgramming chip_boot byte word
chip_laws = record {
  fill_word = λ a w i c free. refl;
  fill_byte = λ a w x c. refl;
  erase_byte = λ a x c h k. refl;
  erase_word = λ a i c. refl;
  write_even = λ a x c h k even. ground arith;
  write_odd = λ a x c h k odd. ground arith;
  write_word = λ a i c. refl;
  cli_byte = λ x c. refl;
  cli_word = λ i c. refl;
  status_byte = λ v x c. refl;
  status_word = λ v i c. refl;
}
