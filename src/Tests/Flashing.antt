-- ===== src/Tests/Flashing.antt =====
-- The theorems on src/stm32/flash.c, on the controller of Bank.
use cannuccia.Common.{
  ℕ, ◌+◌, ◌≤◌, ◌<◌, ◌≡◌, refl, ◌↔◌, ◌⊎◌, true, false, some, List, length, replicate, arith,
}
use cannuccia.Stm32.Flash.{Flash, page_writeable, page_size, bootloader_size}
use cannuccia.Stm32.Flash.Pages.{stm32_page_writeable_iff}
use cannuccia.Stm32.Flash.Programming.{IsWritten, program_page-IsWritten}
use cannuccia.Tests.Bank.{Bank, bank_controller, half, ar, bank_laws, gets_ready}
use cannuccia.Stm32.Flash.Waiting.{program_page}

abbrev bank : Flash Bank
bank = record {
  cur_page_addr = 0;
  hardware = record { cr = 0; is_busy = false; ar_reg = 0; halves = λ x. 0x1234 };
}

abbrev kilobyte : List ℕ
kilobyte = replicate page_size 0

kilobyte-whole : length kilobyte ≡ page_size
kilobyte-whole = refl

-- The last page of a flash of 64 kB.
abbrev last_page : ℕ
last_page = 0x0800FC00

stm32_page_writeable_iff_example : (page_writeable 0x08000000 0x08010000 0x0800FC00 ≡ true) ↔ (
    (0x08000000 + bootloader_size ≤ 0x0800FC00) × (0x0800FC00 + page_size < 0x08010000)
    ⊎ (last_page ≡ 0xFFFFFC00))
stm32_page_writeable_iff_example =
    stm32_page_writeable_iff 0x08000000 0x08010000 0x0800FC00 (omega arith) (omega arith)
      (omega arith) (omega arith)

program_page-IsWritten_example :
    (after : Bank) × (program_page bank_controller 3 0x08001000 kilobyte bank
      ≡ some (record { cur_page_addr = 0; hardware = after }, true))
    × IsWritten bank_controller half ar bank_laws 0x08001000
        (omega arith)
        (omega arith)
        (omega arith)
        kilobyte
        kilobyte-whole
        bank.hardware
        after
program_page-IsWritten_example =
    program_page-IsWritten bank_controller half ar bank_laws 0x08001000 (omega arith) (omega arith)
      (omega arith) kilobyte kilobyte-whole 3 gets_ready bank refl
