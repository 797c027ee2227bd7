-- ===== src/Avr/Device/Bootloader.antt =====
-- The bootloader's own pages over a run of src/common/main.c on the AVR.
use mathlib.Core.List.Memᴰ
use mathlib.Core.List.{Memᴰ}
use cannuccia.Common.{ℕ, ◌%◌, ◌^◌, ◌≤◌, ◌<◌, ◌≡◌, refl, sym, ◌⊎◌, inl, inr, true, List, arith}
use cannuccia.Common.Bits.{bit_and_high}
use cannuccia.Util.{read_u32_le}
use cannuccia.Port.{Port}
use cannuccia.Pump.Handlers.{page_address}
use cannuccia.Pump.{Event, run, boot}
use cannuccia.Pump.Invariant.{GivesBytes, boot-IsValid}
use cannuccia.Pump.Guards.Calls.{IsKept}
use cannuccia.Pump.Guards.Strays.{asked, asked_page, run_kept_or_Strays}
use cannuccia.Avr.Flash.{Boot, page_size, flash_size}
use cannuccia.Avr.Flash.Hardware.{SelfProgramming}
use cannuccia.Avr.Flash.Protection.{
  IsProtected, bootloader_start, flash_unlock-IsProtected, begin_write-IsProtected,
  fill-IsProtected, end_write-IsProtected,
}
use cannuccia.Avr.Flash.Pages.{in_front, stray_page}
use cannuccia.Avr.Can.Link.{Spi}
use cannuccia.Avr.Can.Receiving.{can_recv-IsBytes}
use cannuccia.Avr.Device.{Device, avr_port}

module _ {B S : Type 0} (self : Boot B) (byte word : ℕ → B → ℕ)
    (laws : SelfProgramming self byte word) (spi : Spi S)
    (exchange_byte : (b : ℕ) (s : S) → (spi.exchange b s).0 < 256) (update : ℕ → ℕ → ℕ)
    (ctz : ℕ → ℕ) (uninitialised beyond : List ℕ) where
  abbrev avr : Port (Device B S)
  avr = avr_port self spi update ctz uninitialised beyond

  avr-GivesBytes : GivesBytes avr
  unfolding avr_port
  avr-GivesBytes d id bytes e = can_recv-IsBytes spi exchange_byte 8 id bytes d.can.link e

  avr-IsKept :
      (first : B)
      → IsKept avr (λ a. in_front a ≡ true) (λ d. IsProtected self byte word laws first d.flash)
  unfolding avr_port
  avr-IsKept first = record {
    recv = λ d p. p;
    send = λ id len bytes d p. p;
    stop = λ d p. p;
    unlock_flash = λ d p. flash_unlock-IsProtected self byte word laws first d.flash p;
    begin = λ a d h p. begin_write-IsProtected self byte word laws first a d.flash (ground arith) p;
    fill_page =
        λ bytes d whole p. fill-IsProtected self byte word laws first 0 page_size bytes d.flash p;
    end_page = λ d p. end_write-IsProtected self byte word laws first d.flash p;
  }

  page_address_lem :
      (dev_id : ℕ) (bytes : List ℕ)
      → (page_address avr dev_id bytes < 2 ^ 16) × (page_address avr dev_id bytes % page_size ≡ 0)
  unfolding page_address avr_port
  page_address_lem dev_id bytes = omega (arith, bit_and_high 7 0x1FF (read_u32_le bytes))

  -- Over every run of the loop from `main`'s start, with an SPI link that gives bytes and with no
  -- page being programmed at the start, every byte of the bootloader itself stays what it was,
  -- unless a SELECT_PAGE for the page at 0xFF80 has arrived.
  pub bootloader_untouched :
      (dev_id : ℕ) (es : List Event) (d : Device B S) (x : ℕ)
      → d.flash.cur_page_addr ≡ 0
      → bootloader_start ≤ x
      → x < flash_size
      → (byte x (run avr dev_id es (boot avr d)).device.flash.hardware ≡ byte x d.flash.hardware)
        ⊎ Memᴰ 0xFF80 (asked avr dev_id es (boot avr d))
  bootloader_untouched dev_id es d x idle low high =
      let start : IsProtected self byte word laws d.flash.hardware (boot avr d).device.flash =
        unfold boot in
        unfold avr_port in record { in_front = omega arith; untouched = λ y from to. refl } in
      elim (run_kept_or_Strays avr dev_id in_front
        (λ t. IsProtected self byte word laws d.flash.hardware t.flash)
        (avr-IsKept d.flash.hardware) avr-GivesBytes es (boot avr d)
        (boot-IsValid avr avr-GivesBytes d) (unfold boot in inl refl) start) [
          | inl safe ↦ inl (safe.untouched x low high)
          | inr (a, m, ok, bad) ↦
              let (sent, named) = asked_page avr dev_id es (boot avr d) a m in
              let (small, aligned) = page_address_lem dev_id sent in
              let same : a ≡ 0xFF80 =
                stray_page a (omega arith) (omega arith) (unfold avr_port in ok) bad in
              inr (Memᴰ.cast (sym same) m)
        ]
