-- ===== src/Stm32/Device.antt =====
-- The STM32 target as src/common/main.c sees it: the drivers of src/stm32.
pub mod Committing
use mathlib.Core.Option
use cannuccia.Common.{ℕ, Bool, true, false, Option, none, some, List}
use cannuccia.Crc.{crc16}
use cannuccia.Port.{Port}
use cannuccia.Stm32.Flash.{
  Controller, Flash, page_size, flash_size, page_writeable, flash_unlock, flash_lock, begin_write,
  fill, end_write, read_dev_id, jump_to_program,
}
use cannuccia.Stm32.Can.{Can, Message, can_send, can_recv}
use cannuccia.Stm32.Can.Startup.{Bus, ReadMsr, can_init}
use cannuccia.Stm32.Timer.{Timer, timer_start, timer_stop}
use cannuccia.Stm32.Debug.{Pins, Gpio, debug_init, debug_led}

-- The static variables of the drivers and their registers, and the hardware under them: that of
-- the flash, the CAN controller's with the network behind it, and the pins. The timer calls nothing
-- but `onTimeout`. `RCC_APB1ENR` and `RCC_APB2ENR` are one register each for the three drivers that
-- use them: the ones of `bus`, which `timer_of` and `gpio_of` hand to the others.
pub record Device (B T P : Type 0) : Type 0 where
  pub flash : Flash B
  pub bus : Bus
  pub network : T
  pub timer : Timer (Unit {0})
  pub gpio : Gpio P

module _ {B T P : Type 0} where
  abbrev pub timer_of : Device B T P → Timer (Unit {0})
  timer_of d = record (d.timer) { apb1enr = d.bus.apb1enr }

  abbrev pub with_timer : Timer (Unit {0}) → Device B T P → Device B T P
  with_timer t d = record d { timer = t; bus = record (d.bus) { apb1enr = t.apb1enr } }

  abbrev pub gpio_of : Device B T P → Gpio P
  gpio_of d = record (d.gpio) { apb2enr = d.bus.apb2enr }

  abbrev pub with_gpio : Gpio P → Device B T P → Device B T P
  with_gpio g d = record d { gpio = g; bus = record (d.bus) { apb2enr = g.apb2enr } }

module _ {B T P : Type 0} where
  -- A call that waits, and one that does not. `none` is a target on which a call has not returned:
  -- nothing happens on it any more, and the value beside it, `idle`, means nothing.
  abbrev pub returned : {A : Type 0} → A → Option (Device B T P × A) → Option (Device B T P) × A
  returned idle none = (none, idle)
  returned idle (some (d, a)) = (some d, a)

  abbrev pub waiting :
      {A : Type 0}
      → A
      → (Device B T P → Option (Device B T P × A))
      → Option (Device B T P)
      → Option (Device B T P) × A
  waiting idle call none = (none, idle)
  waiting idle call (some d) = returned idle (call d)

  abbrev pub calling :
      {A : Type 0}
      → A
      → (Device B T P → Device B T P × A)
      → Option (Device B T P)
      → Option (Device B T P) × A
  calling idle call none = (none, idle)
  calling idle call (some d) = let (after, a) = call d in (some after, a)

  abbrev pub on_flash :
      {A : Type 0} → (Flash B → Option (Flash B × A)) → Device B T P → Option (Device B T P × A)
  on_flash call d = Option.map (λ (f, a). (record d { flash = f }, a)) (call d.flash)

-- `live` is what has become of the CAN controller's registers since the last call: messages have
-- been sent, and others have arrived.
module _ {B T P : Type 0} (controller : Controller B) (read_msr : ReadMsr T)
    (live : Can → T → Can × T) (pins : Pins P) where
  -- `fuel` is that of every wait, `start` and `stop` the ends of the flash, `ctz` is
  -- `__builtin_ctz`.
  module _ (fuel start stop : ℕ) (ctz : ℕ → ℕ) (uninitialised : List ℕ) where
    unfoldable pub stm32_port : Port (Option (Device B T P))
    unfolding debug_init debug_led
    stm32_port = record {
      page_size = page_size;
      page_mask = 0xFFFFFC00;
      e_machine = 0x0028;
      address_bits = 32;
      ctz = ctz;
      crc16 = crc16;
      flash_size = flash_size start stop;
      flash_unlock =
          calling false
            (λ d. let (f, ok) = flash_unlock controller d.flash in (record d { flash = f }, ok));
      flash_lock =
          calling false
            (λ d. let (f, ok) = flash_lock controller d.flash in (record d { flash = f }, ok));
      page_writeable = page_writeable start stop;
      begin_write = λ addr. waiting false (on_flash (begin_write controller fuel addr));
      fill = λ offset size bytes. waiting 0 (on_flash (fill controller fuel offset size bytes));
      end_write = waiting false (on_flash (end_write controller fuel));
      read_dev_id = device_id;
      jump_to_program =
          Option.map
            (λ (d : Device B T P). record d { flash = jump_to_program controller start d.flash });
      can_init = λ id mask. waiting false (init_bus id mask);
      can_send = λ id len bytes. calling none (λ d.
          let (now, network) = live d.bus.can d.network in
          let (can, sent) = can_send id len bytes now in
          (record d { bus = record (d.bus) { can = can }; network = network }, sent));
      can_recv = λ max_len. calling none (λ d.
          let (now, network) = live d.bus.can d.network in
          let (can, message) = can_recv max_len now in
          (
            record d { bus = record (d.bus) { can = can }; network = network },
            Option.map (λ (m : Message). (m.id, m.bytes)) message,
          ));
      timer_start = λ delay_us oneshot. calling false (λ d.
          let (t, ok) = timer_start delay_us oneshot (some tt) (timer_of d) in
          (with_timer t d, ok));
      timer_stop = Option.map (λ (d : Device B T P). with_timer (timer_stop (timer_of d)) d);
      uninitialised = uninitialised;
      debug_init =
          calling false (λ d. let (g, ok) = debug_init pins (gpio_of d) in (with_gpio g d, ok));
      debug_led =
          λ on. Option.map (λ (d : Device B T P). with_gpio (debug_led pins on (gpio_of d)) d);
    }
      where
        device_id : Option (Device B T P) → ℕ
        device_id none = 0
        device_id (some d) = read_dev_id controller d.flash

        init_bus : ℕ → ℕ → Device B T P → Option (Device B T P × Bool)
        init_bus id mask d =
            Option.map (λ (bus, network). (record d { bus = bus; network = network }, true))
              (can_init read_msr fuel id mask d.bus d.network)
