-- ===== src/Stm32/Flash.antt =====
-- src/stm32/flash.c. `start` is the address of `_flash_start` and `stop` that of `_flash_end`, which
-- the linker script sets; `uintptr_t` and `unsigned` have 32 bits.
pub mod Pages
pub mod Waiting
pub mod Hardware
pub mod Erasing
pub mod Filling
pub mod Programming
use cannuccia.Common.{
  ℕ, zero, suc, ◌+◌, ◌-◌, ◌*◌, ◌/◌, ◌%◌, ◌^◌, bit_and, bit_or, Bool, true, false, not, ◌&&◌, Option,
  none, some, List, [], ◌∷◌, u8, u32, ◌>>>◌, leb, ltb, ◌==◌, if◌then◌else◌,
}
use cannuccia.Stm32.Can.{clear_bit}

abbrev pub page_size : ℕ
page_size = 0x400

abbrev pub bootloader_size : ℕ
bootloader_size = 0x1000

-- `cnFlashSize`
pub flash_size : ℕ → ℕ → ℕ
flash_size start stop = stop - start

-- `cnFlashPageWriteable`
pub page_writeable : ℕ → ℕ → ℕ → Bool
page_writeable start stop addr =
    leb (u32 (start + bootloader_size)) addr && ltb (u32 (addr + page_size)) stop

-- The accesses to the registers of the flash controller and to memory. A read of `SR` is a step
-- of the hardware: what it gives, and the hardware behind it.
pub record Controller (B : Type 0) : Type 0 where
  pub read_cr : B → ℕ
  pub write_cr : ℕ → B → B
  pub write_keyr : ℕ → B → B
  pub write_ar : ℕ → B → B
  pub read_sr : B → ℕ × B
  pub read_obr : B → ℕ
  -- `*destHW = value`
  pub write_half : ℕ → ℕ → B → B
  -- `vt[i]`, the move to `msp`, the writes to `SCB_VTOR` with the barrier, and `userReset()`
  pub read_word : ℕ → B → ℕ
  pub set_msp : ℕ → B → B
  pub set_vtor : ℕ → B → B
  pub call : ℕ → B → B

-- The static variable of flash.c, and the hardware.
pub record Flash (B : Type 0) : Type 0 where
  pub cur_page_addr : ℕ
  pub hardware : B

module _ {B : Type 0} (controller : Controller B) where
  open controller use {read_cr, write_cr, write_keyr, write_ar, read_sr, write_half}

  abbrev pub is_locked : B → Bool
  is_locked b = not (bit_and (read_cr b) 0x80 == 0)

  -- `cnFlashUnlock`
  pub flash_unlock : Flash B → Flash B × Bool
  flash_unlock f =
      let b = write_keyr 0xCDEF89AB (write_keyr 0x45670123 f.hardware) in
      (record f { hardware = b }, not (is_locked b))

  -- `cnFlashLock`
  pub flash_lock : Flash B → Flash B × Bool
  flash_lock f =
      let b = write_cr (bit_or (read_cr f.hardware) 0x80) f.hardware in
      (record f { hardware = b }, is_locked b)

  -- `waitForFlash` on fuel, `none` where the fuel ends before the hardware is ready.
  unfoldable pub wait_for_flash : ℕ → B → Option B
  wait_for_flash zero b = none
  wait_for_flash (suc fuel) b =
      let (status, after) = read_sr b in
      let later = wait_for_flash fuel after in
      if bit_and status 0x01 == 0 then some after else later

  -- `FLASH->CR |= bits` and `FLASH->CR &= ~bits`
  abbrev pub set_cr : ℕ → B → B
  set_cr bits b = write_cr (bit_or (read_cr b) bits) b

  pub reset_cr : ℕ → B → B
  unfolding clear_bit
  reset_cr bits b = write_cr (clear_bit (read_cr b) bits) b

  -- Every wait of a call has the same fuel.
  module _ (fuel : ℕ) where
    abbrev after_wait : {A : Type 0} → (B → Option A) → Option B → Option A
    after_wait next none = none
    after_wait next (some b) = next b

    -- `cnFlashBeginWrite`
    pub erase : ℕ → B → Option B
    unfolding wait_for_flash
    erase addr b =
        after_wait (λ ready. wait_for_flash fuel (set_cr 0x40 (write_ar addr (set_cr 0x02 ready))))
          (wait_for_flash fuel b)

    pub begin_write : ℕ → Flash B → Option (Flash B × Bool)
    unfolding erase reset_cr
    begin_write addr f =
        if is_locked f.hardware
        then some (f, false)
        else after_wait
            (λ b.
              some
                (record { cur_page_addr = addr; hardware = set_cr 0x01 (reset_cr 0x02 b) }, true))
            (erase addr f.hardware)

    -- The loop of `cnFlashFill` at `bytesWritten` and `destHW`, over the bytes that `srcHW` points
    -- to. Where the bytes end before the loop does, C reads past `data`; the model stops there.
    pub fill_loop : ℕ → ℕ → ℕ → List ℕ → B → Option (B × ℕ)
    unfolding wait_for_flash
    fill_loop size written dest (lo ∷ hi ∷ src) b =
        let rest =
          after_wait
            (λ ready.
              fill_loop size (u32 (written + 2)) (u32 (dest + 2)) src
                (write_half dest (lo + hi * 256) ready))
            (wait_for_flash fuel b) in
        if ltb written size then rest else some (b, written)
    fill_loop size written dest _ b = some (b, written)

    abbrev with_hardware : {A : Type 0} → Flash B → Option (B × A) → Option (Flash B × A)
    with_hardware f none = none
    with_hardware f (some (b, a)) = some (record f { hardware = b }, a)

    abbrev wait_behind : Option (B × ℕ) → Option (B × ℕ)
    wait_behind none = none
    wait_behind (some (b, written)) =
        after_wait (λ ready. some (ready, written)) (wait_for_flash fuel b)

    -- `cnFlashFill`
    pub fill : ℕ → ℕ → List ℕ → Flash B → Option (Flash B × ℕ)
    unfolding fill_loop
    fill offset size bytes f =
        if f.cur_page_addr == 0
        then some (f, 0)
        else with_hardware f
            (wait_behind (fill_loop size 0 (u32 (f.cur_page_addr + offset)) bytes f.hardware))

    -- `cnFlashEndWrite`
    pub end_write : Flash B → Option (Flash B × Bool)
    unfolding wait_for_flash reset_cr
    end_write f =
        if f.cur_page_addr == 0
        then some (f, false)
        else after_wait (λ b. some (record { cur_page_addr = 0; hardware = reset_cr 0x01 b }, true))
            (wait_for_flash fuel f.hardware)

  -- `cnReadDevId`
  pub read_dev_id : Flash B → ℕ
  read_dev_id f = u8 (bit_and (controller.read_obr f.hardware) 0x0003FC00 >>> 10)

  -- `cnJumpToProgram`
  pub jump_to_program : ℕ → Flash B → Flash B
  jump_to_program start f =
      let table = u32 (start + bootloader_size) in
      let reset = controller.read_word (u32 (table + 4)) f.hardware in
      let stack = controller.set_msp (controller.read_word table f.hardware) f.hardware in
      record f { hardware = controller.call reset (controller.set_vtor table stack) }
