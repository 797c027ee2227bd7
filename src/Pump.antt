-- ===== src/Pump.antt =====
-- src/common/main.c: the state of the bootloader and its message pump. The timeout's interrupt is
-- an event between two rounds of the loop.
pub mod Handlers
pub mod Writes
pub mod Upload
pub mod Session
pub mod Invariant
pub mod Guards
pub mod Order
pub mod Ending
pub mod Transitions
use cannuccia.Common.{
  ℕ, zero, suc, ◌%◌, ◌^◌, Bool, true, false, Option, none, some, List, [], ◌∷◌, replicate,
  if◌then◌else◌,
}
use cannuccia.Protocol.{command, dev_mask, tx_filter_id, tx_filter_mask}
use cannuccia.Port.{Port}
use Handlers.{State, idle, done, Page, Pump, handle}

abbrev pub bootloader_timeout_us : ℕ
bootloader_timeout_us = 3000000

-- What wakes `main`: a round of the loop, or the interrupt that runs `onTimeout`. It may come at any
-- time, also when the timer has been stopped, and of what the target's handler does around
-- `onTimeout` (the AVR's stops a one-shot timer) nothing is part of the event: it only stores DONE.
pub data Event : Type 0 where
  poll timeout : Event

abbrev pub is_done : State → Bool
is_done done = true
is_done _ = false

module _ {D : Type 0} (port : Port D) where
  open port use {page_size}

  -- `onTimeout`
  pub on_timeout : Pump D → Pump D
  on_timeout s = record s { state = done }

  -- The loop's body, on what `cnCANRecv` returned.
  pub receive : ℕ → Pump D → D × Option (ℕ × List ℕ) → Pump D
  receive dev_id s (d, none) = record s { device = d }
  receive dev_id s (d, some (msg_id, bytes)) =
      handle port dev_id (command msg_id) bytes (record s { device = d })

  pub step : ℕ → Event → Pump D → Pump D
  unfolding on_timeout receive
  step dev_id poll s = receive dev_id s (port.can_recv 8 s.device)
  step dev_id timeout s = on_timeout s

  -- The loop `while(state != DONE)`, over the events of a run.
  pub run : ℕ → List Event → Pump D → Pump D
  run dev_id [] s = s
  run dev_id (e ∷ es) s =
      let rest = run dev_id es (step dev_id e s) in if is_done s.state then s else rest

  -- `main` up to the loop.
  unfoldable pub boot : D → Pump D
  boot d =
      let led = port.debug_led true (port.debug_init d).0 in
      let filter_id = dev_mask tx_filter_id (port.read_dev_id led) in
      let bus = (port.can_init filter_id tx_filter_mask led).0 in
      record {
        state = idle;
        sel_page = record { addr = 0; write_offset = 0; writes = replicate page_size 0 };
        out_data = port.uninitialised;
        device = (port.timer_start bootloader_timeout_us true bus).0;
      }

  -- `main` after the loop.
  pub leave : Pump D → D
  leave s = port.jump_to_program (port.flash_lock (port.debug_led false s.device)).0

  -- `devId`, which `main` reads once.
  pub dev_id_of : D → ℕ
  dev_id_of d = port.read_dev_id (port.debug_led true (port.debug_init d).0)

  -- `main`, over the events of a run; `none` while the loop is still waiting.
  pub main : D → List Event → Option D
  unfolding step run boot leave dev_id_of
  main d es =
      let s = run (dev_id_of d) es (boot d) in if is_done s.state then some (leave s) else none
