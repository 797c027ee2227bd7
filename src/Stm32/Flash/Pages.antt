-- ===== src/Stm32/Flash/Pages.antt =====
-- Which pages `cnFlashPageWriteable` of src/stm32/flash.c accepts.
use cannuccia.Common.{ℕ, ◌+◌, ◌%◌, ◌^◌, ◌≤◌, ◌<◌, ◌≡◌, ◌↔◌, ◌⊎◌, true, arith}
use cannuccia.Stm32.Flash.{page_writeable, page_size, bootloader_size}

-- `cnFlashPageWriteable` accepts the pages from the end of the bootloader on whose end lies before
-- the end of flash, which leaves the last page out, and the page at 0xFFFFFC00, behind which the
-- addresses wrap around. The bootloader fits in flash, and flash ends by 0xFFFFFC00.
pub stm32_page_writeable_iff :
    (start stop addr : ℕ)
    → start + bootloader_size ≤ stop
    → stop ≤ 0xFFFFFC00
    → addr < 2 ^ 32
    → addr % page_size ≡ 0
    → (page_writeable start stop addr ≡ true)
      ↔ ((start + bootloader_size ≤ addr) × (addr + page_size < stop) ⊎ (addr ≡ 0xFFFFFC00))
unfolding page_writeable
stm32_page_writeable_iff start stop addr room below h aligned = ground arith
