-- ===== src/Avr/Device.antt =====
-- The AVR target as src/common/main.c sees it: the drivers of src/avr, and src/avr/debug.c.
pub mod Bootloader
pub mod Session
pub mod Download
use cannuccia.Common.{ℕ, ◌^◌, Bool, true, false, Option, none, some, List, ◌++◌}
use cannuccia.Crc.{avr_crc16}
use cannuccia.Port.{Port}
use cannuccia.Avr.Flash.{
  Boot, Flash, page_size, page_mask, flash_size, page_writeable, flash_unlock, flash_lock,
  begin_write, fill, end_write, read_dev_id, jump_to_program,
}
use cannuccia.Avr.Can.Link.{Spi}
use cannuccia.Avr.Can.Setup.{Can, can_init}
use cannuccia.Avr.Can.Messages.{Sending, sent, busy, fault, can_send, can_recv}
use cannuccia.Avr.Timer.{Timer, timer_start, timer_stop}

-- The static variables of the drivers, and the hardware under them: that of self-programming, and
-- the link to the CAN controller. The timer calls nothing but `onTimeout`.
pub record Device (B S : Type 0) : Type 0 where
  pub flash : Flash B
  pub can : Can S
  pub timer : Timer (Unit {0})

-- The value that `cnCANSend` returns. A `fault` needs a length above 8, or an array and what lies
-- behind it to be shorter than eight bytes.
abbrev pub returned : Sending → Option ℕ
returned (sent n) = some n
returned busy = none
returned fault = none

module _ {B S : Type 0} (boot : Boot B) (spi : Spi S) where
  -- `cnCANSend` with an array that ends where `beyond` begins, which is what the memory holds there.
  pub send_from : List ℕ → ℕ → ℕ → List ℕ → Device B S → Device B S × Option ℕ
  send_from beyond id len bytes d =
      let (result, link) = can_send spi id len (bytes ++ beyond) d.can.link in
      (record d { can = record (d.can) { link = link } }, returned result)

  -- `cnCANRecv`
  pub receive_into : ℕ → Device B S → Device B S × Option (ℕ × List ℕ)
  receive_into max_len d =
      let (message, link) = can_recv spi max_len d.can.link in
      (record d { can = record (d.can) { link = link } }, message)

  abbrev pub on_flash : {A : Type 0} → (Flash B → Flash B × A) → Device B S → Device B S × A
  on_flash call d = let (f, a) = call d.flash in (record d { flash = f }, a)

  -- `cnDebugInit` and `cnDebugLed` of debug.c, which do nothing.
  abbrev pub debug_init : Device B S → Device B S × Bool
  debug_init d = (d, true)

  abbrev pub debug_led : Bool → Device B S → Device B S
  debug_led on d = d

  -- `update` is `_crc_xmodem_update`, `ctz` is `__builtin_ctz`.
  module _ (update : ℕ → ℕ → ℕ) (ctz : ℕ → ℕ) (uninitialised beyond : List ℕ) where
    unfoldable pub avr_port : Port (Device B S)
    unfolding send_from receive_into
    avr_port = record {
      page_size = page_size;
      page_mask = page_mask;
      e_machine = 0x0053;
      address_bits = 16;
      ctz = ctz;
      crc16 = avr_crc16 update;
      flash_size = flash_size;
      flash_unlock = on_flash (flash_unlock boot);
      flash_lock = on_flash (flash_lock boot);
      page_writeable = page_writeable;
      begin_write = λ addr. on_flash (begin_write boot addr);
      fill = λ offset size bytes. on_flash (fill boot offset size bytes);
      end_write = on_flash (end_write boot);
      read_dev_id = λ d. read_dev_id boot d.flash;
      jump_to_program = λ d. record d { flash = jump_to_program boot d.flash };
      can_init =
          λ id mask d. let (c, ok) = can_init spi id mask d.can in (record d { can = c }, ok);
      can_send = send_from beyond;
      can_recv = receive_into;
      timer_start = λ delay_us oneshot d.
          let (t, ok) = timer_start delay_us oneshot (some tt) d.timer in
          (record d { timer = t }, ok);
      timer_stop = λ d. record d { timer = timer_stop d.timer };
      uninitialised = uninitialised;
      debug_init = debug_init;
      debug_led = debug_led;
    }
