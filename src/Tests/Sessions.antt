-- ===== src/Tests/Sessions.antt =====
-- The theorem on programming a page of the STM32 over the bus, on the controller of Bank.
use mathlib.Core.List.{flatten}
use cannuccia.Common.{
  ℕ, ◌≡◌, refl, inl, true, false, Option, none, some, List, [], ◌∷◌, length, replicate, arith,
}
use cannuccia.Util.{write_u32_le}
use cannuccia.Protocol.{select_page, commit_writes}
use cannuccia.Port.{Port}
use cannuccia.Pump.Handlers.{Pump, unlocked, handle}
use cannuccia.Pump.Upload.{upload}
use cannuccia.Stm32.Flash.{page_size, page_writeable}
use cannuccia.Stm32.Flash.Pages.{stm32_page_writeable_iff}
use cannuccia.Stm32.Flash.Programming.{IsWritten}
use cannuccia.Stm32.Can.{Can, empty_mailbox}
use cannuccia.Stm32.Can.Startup.{ReadMsr}
use cannuccia.Stm32.Debug.{Pins}
use cannuccia.Stm32.Device.{Device, stm32_port}
use cannuccia.Stm32.Device.Committing.{session-IsWritten}
use cannuccia.Tests.Bank.{Bank, bank_controller, half, ar, bank_laws, gets_ready}

abbrev steady_msr : ReadMsr (Unit {0})
steady_msr mcr t = (0, tt)

-- All mailboxes have been emptied.
abbrev all_sent : Can → Unit {0} → Can × Unit {0}
all_sent c t = (record c { tsr = 0x1C000000 }, t)

abbrev no_pins : Pins (Unit {0})
no_pins = record { write_bsrr = λ v p. p; level = λ k p. 0 }

abbrev no_zeros : ℕ → ℕ
no_zeros n = 10

abbrev board : Device Bank (Unit {0}) (Unit {0})
board = record {
  flash = record {
    cur_page_addr = 0;
    hardware = record { cr = 0; is_busy = false; ar_reg = 0; halves = λ x. 0x1234 };
  };
  bus = record {
    bus_inited = true;
    mcr = 0x60;
    btr = 0x00050008;
    fmr = 0;
    apb1enr = 0;
    apb2enr = 0;
    mapr = 0;
    gpiob_crh = 0;
    can = record {
      tsr = 0x1C000000;
      rf0r = 0;
      outbox = empty_mailbox ∷ empty_mailbox ∷ empty_mailbox ∷ [];
      inbox0 = empty_mailbox;
      fm1r = 0;
      fs1r = 0;
      ffa1r = 0;
      fa1r = 0;
      filter = [];
    };
  };
  network = tt;
  timer = record {
    timeout_func = none;
    cr1 = 0;
    dier = 0;
    sr = 0;
    egr = 0;
    psc = 0;
    arr = 0;
    apb1enr = 0;
    iser0 = 0;
    icer0 = 0;
    icpr0 = 0;
  };
  gpio = record { apb2enr = 0; crh = 0; port = tt };
}

abbrev blue_pill : Port (Option (Device Bank (Unit {0}) (Unit {0})))
blue_pill =
    stm32_port bank_controller steady_msr all_sent no_pins 3 0x08000000 0x08010000 no_zeros
      (replicate 8 0)

abbrev open_pump : Pump (Option (Device Bank (Unit {0}) (Unit {0})))
open_pump = record {
  state = unlocked;
  sel_page = record { addr = 0; write_offset = 0; writes = replicate page_size 0 };
  out_data = replicate 8 0;
  device = some board;
}

-- 128 WRITEs of eight bytes.
abbrev writes_of_page : List (List ℕ)
writes_of_page = replicate 128 (1 ∷ 2 ∷ 3 ∷ 4 ∷ 5 ∷ 6 ∷ 7 ∷ 8 ∷ [])

writes_of_page-whole : length (flatten writes_of_page) ≡ page_size
unfolding flatten
writes_of_page-whole = refl

accepted : page_writeable 0x08000000 0x08010000 0x08001000 ≡ true
accepted =
    (stm32_page_writeable_iff 0x08000000 0x08010000 0x08001000 (omega arith) (omega arith)
        (omega arith) (omega arith)).1
      (inl (omega arith, omega arith))

session-IsWritten_example :
    (after : Device Bank (Unit {0}) (Unit {0})) × ((handle blue_pill 7 commit_writes [] (
        upload blue_pill 7 writes_of_page
          (handle blue_pill 7 select_page (write_u32_le 0x08001000) open_pump))).device
      ≡ some after)
    × IsWritten bank_controller half ar bank_laws 0x08001000
        (omega arith)
        (omega arith)
        (omega arith)
        (flatten writes_of_page)
        writes_of_page-whole
        board.flash.hardware
        after.flash.hardware
session-IsWritten_example =
    session-IsWritten bank_controller half ar bank_laws steady_msr all_sent no_pins 3 0x08000000
      0x08010000 no_zeros (replicate 8 0) 7 gets_ready 0x08001000 writes_of_page open_pump board
      (omega arith) (omega arith) (omega arith) writes_of_page-whole accepted refl refl refl refl
