-- ===== src/Avr/Flash/Pages.antt =====
-- Which pages `cnFlashPageWriteable` of src/avr/flash.c accepts.
use cannuccia.Common.{
  Bool, false, ltb, ◌%◌, ℕ, ◌+◌, ◌-◌, ◌*◌, ◌/◌, ◌^◌, ◌<◌, ◌≡◌, ◌↔◌, ◌⊎◌, true, arith,
}
use cannuccia.Avr.Flash.{page_writeable, page_size, bootloader_size, flash_size}

-- The number of pages in front of the bootloader.
abbrev pub application_pages : ℕ
application_pages = (flash_size - bootloader_size) / page_size

-- Of the pages that a 16-bit address can name, `cnFlashPageWriteable` accepts those of the
-- application but for its last one, and the one at 0xFF80, which lies behind the end of flash.
pub page_writeable_iff :
    (k : ℕ)
    → k * page_size < 2 ^ 16
    → (page_writeable (k * page_size) ≡ true)
      ↔ ((k + 1 < application_pages) ⊎ (k * page_size ≡ 0xFF80))
unfolding page_writeable
page_writeable_iff k h = ground arith

-- A page that lies in front of the bootloader, but for the last such page.
abbrev pub in_front : ℕ → Bool
in_front a = ltb (a + page_size) (flash_size - bootloader_size)

-- The one page that `cnFlashPageWriteable` accepts besides those.
pub stray_page :
    (a : ℕ)
    → a < 2 ^ 16
    → a % page_size ≡ 0
    → page_writeable a ≡ true
    → in_front a ≡ false
    → a ≡ 0xFF80
unfolding page_writeable
stray_page a h aligned ok bad = ground arith
