-- ===== src/Tests/Devices.antt =====
-- The theorems on the whole AVR target, over Chip and Wire.
use mathlib.Core.List.{flatten}
use mathlib.Core.List.{Memᴰ}
use cannuccia.Common.{
  ℕ, ◌+◌, ◌<◌, ◌≡◌, refl, ◌⊎◌, bit_xor, true, false, none, List, [], ◌∷◌, replicate,
  IsBytes-replicate, u16, ◌<<<◌, arith,
}
use cannuccia.Crc.Avr.{documented_rounds}
use cannuccia.Port.{Port}
use cannuccia.Pump.{Event, poll, run, boot}
use cannuccia.Pump.Handlers.{unlocked, Pump}
use cannuccia.Pump.Guards.Strays.{asked}
use cannuccia.Avr.Flash.{page_size}
use cannuccia.Avr.Device.{Device, avr_port}
use cannuccia.Avr.Device.Bootloader.{bootloader_untouched}
use cannuccia.Avr.Device.Download.{Job, IsJob, write_pages, IsReady, download, download-write_pages}
use cannuccia.Tests.Chip.{Chip, chip_boot, byte, word, chip_laws}
use cannuccia.Tests.Wire.{Wire, wire, idle_wire, wire_gives_bytes}

abbrev xmodem : ℕ → ℕ → ℕ
xmodem crc b = documented_rounds 8 (bit_xor crc (u16 (b <<< 8)))

abbrev no_zeros : ℕ → ℕ
no_zeros n = 7

abbrev eight_ff : List ℕ
eight_ff = replicate 8 0xFF

-- The answers to `mcpChangeMode`, and then a SELECT_PAGE for the page at 0x0180.
abbrev select_wire : Wire
select_wire = record idle_wire {
  answers =
      0 ∷ 0 ∷ 0 ∷ 0 ∷ 0 ∷ 0 ∷ 0 ∷ 0 ∷ 0x40 ∷ 0 ∷ 0 ∷ 0x0B ∷ 0x01 ∷ 0x28 ∷ 4 ∷ 0x80 ∷ 0x01 ∷ 0 ∷ 0
      ∷ [];
}

abbrev device : Device Chip Wire
device = record {
  flash = record {
    flash_locked = false;
    cur_page_addr = 0;
    hardware = record { flash = λ x. 0x55; buffer = λ i. 0xFFFF };
  };
  can = record { inited = true; link = select_wire };
  timer = record {
    timeout_func = none;
    timer_oneshot = false;
    timsk1 = 0;
    tcnt1 = 0;
    tccr1a = 0;
    tccr1b = 0;
    interrupts = false;
  };
}

abbrev target : Port (Device Chip Wire)
target = avr_port chip_boot wire xmodem no_zeros eight_ff eight_ff

abbrev polls : List Event
polls = poll ∷ poll ∷ []

bootloader_untouched_example :
    (byte 0x7F80 (run target 7 polls (boot target device)).device.flash.hardware
      ≡ byte 0x7F80 device.flash.hardware)
    ⊎ Memᴰ 0xFF80 (asked target 7 polls (boot target device))
bootloader_untouched_example =
    bootloader_untouched chip_boot byte word chip_laws wire wire_gives_bytes xmodem no_zeros
      eight_ff eight_ff 7 polls device 0x7F80 refl (omega arith) (omega arith)

abbrev waiting_pump : Pump (Device Chip Wire)
waiting_pump = record {
  state = unlocked;
  sel_page = record { addr = 0; write_offset = 0; writes = replicate page_size 0 };
  out_data = eight_ff;
  device = device;
}

-- Two pages, in WRITEs of eight bytes.
abbrev sixteen_writes : ℕ → List (List ℕ)
sixteen_writes b = replicate 16 (replicate 8 b)

abbrev two_pages : List Job
two_pages = (1, sixteen_writes 0) ∷ (2, sixteen_writes 0) ∷ []

IsJob-sixteen_writes : (k : ℕ) → 0 < k → k + 1 < 224 → IsJob (k, sixteen_writes 0)
unfolding flatten
IsJob-sixteen_writes k p h = record {
  not_first = p;
  in_front = h;
  whole = refl;
  are_bytes = IsBytes-replicate 128;
}

abbrev IsReadyPump : Pump (Device Chip Wire) → Type 0
IsReadyPump s = IsReady chip_boot byte word chip_laws wire xmodem no_zeros eight_ff eight_ff 7 s

waiting_pump-IsReady : IsReadyPump waiting_pump
waiting_pump-IsReady = record {
  open_state = refl;
  open_flash = refl;
  clear = λ i h. refl;
  whole_buffer = refl;
}

abbrev sent_pages : Pump (Device Chip Wire) → Pump (Device Chip Wire)
sent_pages s =
    download chip_boot byte word chip_laws wire xmodem no_zeros eight_ff eight_ff 7 two_pages s

download-write_pages_example :
    (byte 300 (sent_pages waiting_pump).device.flash.hardware
      ≡ write_pages two_pages (λ x. byte x waiting_pump.device.flash.hardware) 300)
    × IsReadyPump (sent_pages waiting_pump)
download-write_pages_example =
    download-write_pages chip_boot byte word chip_laws wire xmodem no_zeros eight_ff eight_ff 7
      two_pages waiting_pump 300
      (
        IsJob-sixteen_writes 1 (omega arith) (omega arith),
        (IsJob-sixteen_writes 2 (omega arith) (omega arith), tt),
      )
      waiting_pump-IsReady (omega arith)
