-- ===== src/Tests/Pages.antt =====
-- The theorems on src/avr/flash.c, on the flash memory of Chip.
use cannuccia.Common.{
  ℕ, ◌+◌, ◌*◌, ◌<◌, ◌≡◌, refl, ◌↔◌, ◌⊎◌, true, false, List, length, replicate, IsBytes-replicate,
  arith,
}
use cannuccia.Avr.Flash.{Flash, page_writeable, page_size}
use cannuccia.Tests.Chip.{Chip, chip_boot, byte, word, chip_laws}
use cannuccia.Avr.Flash.Commit.{commit, commit_page_zero, commit_programs, IsProgrammed}
use cannuccia.Avr.Flash.Pages.{page_writeable_iff, application_pages}

abbrev fresh : Flash Chip
fresh = record {
  flash_locked = false;
  cur_page_addr = 0;
  hardware = record { flash = λ x. 0x55; buffer = λ i. 0xFFFF };
}

abbrev page_of_zeros : List ℕ
page_of_zeros = replicate page_size 0

page_of_zeros-whole : length page_of_zeros ≡ page_size
page_of_zeros-whole = refl

commit_programs_example :
    ((commit chip_boot 0x100 page_of_zeros fresh).1 ≡ true)
    × IsProgrammed chip_boot byte word chip_laws 0x100 refl
        (omega arith)
        (omega arith)
        page_of_zeros
        page_of_zeros-whole
        (IsBytes-replicate page_size)
        fresh.hardware
        (commit chip_boot 0x100 page_of_zeros fresh).0.hardware
commit_programs_example =
    commit_programs chip_boot byte word chip_laws 0x100 refl (omega arith) (omega arith)
      page_of_zeros page_of_zeros-whole (IsBytes-replicate page_size) fresh refl (λ i h. refl)

commit_page_zero_example :
    ((commit chip_boot 0 page_of_zeros fresh).1 ≡ false)
    × ((commit chip_boot 0 page_of_zeros fresh).0.hardware ≡ fresh.hardware)
commit_page_zero_example = commit_page_zero chip_boot page_of_zeros fresh

page_writeable_iff_example :
    (page_writeable (222 * page_size) ≡ true)
    ↔ ((222 + 1 < application_pages) ⊎ (222 * page_size ≡ 0xFF80))
page_writeable_iff_example = page_writeable_iff 222 (omega arith)
