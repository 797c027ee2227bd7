-- ===== src/Avr/Flash.antt =====
-- src/avr/flash.c, with the constants of src/avr/AVRtoolchain.cmake for the ATmega328p. `uintptr_t`
-- and `unsigned` have 16 bits.
pub mod Pages
pub mod Hardware
pub mod Filling
pub mod Commit
pub mod Protection
use cannuccia.Common.{
  ℕ, ◌+◌, ◌-◌, ◌*◌, ◌%◌, ◌^◌, Bool, true, false, ◌&&◌, ◌||◌, List, [], ◌∷◌, u16, ltb, ◌==◌,
  if◌then◌else◌,
}

abbrev pub page_size : ℕ
page_size = 0x80

abbrev pub page_mask : ℕ
page_mask = 0xFF80

abbrev pub bootloader_size : ℕ
bootloader_size = 4096

-- `FLASH_SIZE`
abbrev pub flash_size : ℕ
flash_size = 0x8000

-- `cnFlashPageWriteable`
pub page_writeable : ℕ → Bool
page_writeable addr = ltb (u16 (addr + page_size)) (flash_size - bootloader_size)

-- The macros of avr-libc and the registers that flash.c uses.
pub record Boot (B : Type 0) : Type 0 where
  pub page_fill : ℕ → ℕ → B → B
  pub page_erase : ℕ → B → B
  pub page_write : ℕ → B → B
  pub rww_enable : B → B
  pub eeprom_read_byte : ℕ → B → ℕ
  -- `SREG`, `cli()` and `SREG = sregBak`
  pub status : B → ℕ
  pub cli : B → B
  pub set_status : ℕ → B → B
  -- `JMP 0`
  pub jump_zero : B → B

-- The static variables of flash.c, and the hardware.
pub record Flash (B : Type 0) : Type 0 where
  pub flash_locked : Bool
  pub cur_page_addr : ℕ
  pub hardware : B

module _ {B : Type 0} (boot : Boot B) where
  -- `cnFlashUnlock` and `cnFlashLock`
  pub flash_unlock : Flash B → Flash B × Bool
  flash_unlock f = (record f { flash_locked = false }, true)

  pub flash_lock : Flash B → Flash B × Bool
  flash_lock f = (record f { flash_locked = true }, true)

  -- `cnFlashBeginWrite`
  unfoldable pub begin_write : ℕ → Flash B → Flash B × Bool
  begin_write addr f = (record f { cur_page_addr = addr }, true)

  -- The loop of `cnFlashFill` at `bytesWritten` and `addr`, over the bytes that `src` points to. A
  -- word is loaded with its low byte first. Where the bytes end before the loop does, C reads past
  -- `data`; the model stops there.
  pub fill_loop : ℕ → ℕ → ℕ → ℕ → List ℕ → B → B × ℕ
  fill_loop offset size written addr (lo ∷ hi ∷ src) b =
      let rest =
        fill_loop offset size (u16 (written + 2)) (u16 (addr + 2)) src
          (boot.page_fill addr (lo + hi * 256) b) in
      if ltb written size && ltb (u16 (written + offset)) page_size then rest else (b, written)
  fill_loop offset size written addr _ b = (b, written)

  -- `cnFlashFill`: the bytes that it returns to have written.
  pub fill : ℕ → ℕ → List ℕ → Flash B → Flash B × ℕ
  unfolding fill_loop
  fill offset size bytes f =
      let (b, written) =
        fill_loop offset size 0 (u16 (f.cur_page_addr + offset)) bytes f.hardware in
      if f.cur_page_addr == 0 then (f, 0) else (record f { hardware = b }, written)

  -- The interrupts are off while the page is erased and written.
  pub program : ℕ → B → B
  program addr b =
      let backup = boot.status b in
      boot.set_status backup (boot.page_write addr (boot.page_erase addr (boot.cli b)))

  -- `cnFlashEndWrite`
  pub end_write : Flash B → Flash B × Bool
  unfolding program
  end_write f =
      if f.cur_page_addr == 0 || f.flash_locked
      then (f, false)
      else (record f { hardware = program f.cur_page_addr f.hardware; cur_page_addr = 0 }, true)

  -- `cnReadDevId`
  pub read_dev_id : Flash B → ℕ
  read_dev_id f = boot.eeprom_read_byte 0x00 f.hardware

  -- `cnJumpToProgram`
  pub jump_to_program : Flash B → Flash B
  jump_to_program f = record f { hardware = boot.jump_zero (boot.rww_enable f.hardware) }
