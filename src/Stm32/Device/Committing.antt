-- ===== src/Stm32/Device/Committing.antt =====
-- Programming a page over the bus, from SELECT_PAGE to COMMIT_WRITES of src/common/main.c, on the
-- STM32.
use mathlib.Core.List.{flatten}
use cannuccia.Common.{
  ℕ, ◌+◌, ◌%◌, ◌^◌, ◌<◌, ◌≡◌, refl, ap, ◌==◌, arith, true, Option, some, List, [], length,
}
use cannuccia.Protocol.{commit_writes, select_page, page_selected}
use cannuccia.Port.{Port}
use cannuccia.Pump.Handlers.{
  unlocked, Pump, handle, on_commit_writes, answer, send, on_select_page, page_address,
}
use cannuccia.Util.{write_u32_le}
use cannuccia.Util.Endian.{read_u32_le-write_u32_le}
use cannuccia.Common.Bits.{bit_and_field}
use cannuccia.Pump.Upload.{upload, upload_lem}
use cannuccia.Stm32.Flash.{Controller, Flash, page_size, page_writeable}
use cannuccia.Stm32.Flash.Hardware.{FlashMemory}
use cannuccia.Stm32.Flash.Waiting.{ReadyIn}
use cannuccia.Stm32.Flash.Programming.{IsWritten, three_calls}
use cannuccia.Stm32.Can.{Can}
use cannuccia.Stm32.Can.Startup.{ReadMsr}
use cannuccia.Stm32.Debug.{Pins}
use cannuccia.Stm32.Device.{Device, stm32_port}

module _ {B T P : Type 0} (controller : Controller B) (half : ℕ → B → ℕ) (ar : B → ℕ)
    (laws : FlashMemory controller half ar) (read_msr : ReadMsr T) (live : Can → T → Can × T)
    (pins : Pins P) (fuel start stop : ℕ) (ctz : ℕ → ℕ) (uninitialised : List ℕ) (dev_id : ℕ)
    (gets_ready : (b : B) → (n : ℕ) × (n < fuel) × ReadyIn controller n b) where
  abbrev stm32 : Port (Option (Device B T P))
  stm32 = stm32_port controller read_msr live pins fuel start stop ctz uninitialised

  commit_writes-IsWritten :
      (page : ℕ) (bytes : List ℕ) (s : Pump (Option (Device B T P))) (d : Device B T P)
      (aligned : page % page_size ≡ 0) (inside : page + page_size < 2 ^ 32) (not_zero : 0 < page)
      (whole : length bytes ≡ page_size)
      → s.state ≡ unlocked
      → s.device ≡ some d
      → s.sel_page.addr ≡ page
      → s.sel_page.writes ≡ bytes
      → controller.read_cr d.flash.hardware ≡ 0
      → (after : Device B T P) × ((handle stm32 dev_id commit_writes [] s).device ≡ some after)
        × IsWritten controller half ar laws page aligned inside not_zero bytes whole
            d.flash.hardware after.flash.hardware
  unfolding handle on_commit_writes stm32_port
  commit_writes-IsWritten page bytes s d aligned inside not_zero whole open_state running selected
        sent reset =
      let (begun, filled, after, begins, fills, ends, written) =
        three_calls controller half ar laws page aligned inside not_zero bytes whole fuel gets_ready
          d.flash reset in
      rw open_state
        (rw (running, selected) (rw begins (rw sent (rw fills (rw ends (_, refl, written))))))

  page_address-write_u32_le :
      (page : ℕ)
      → page % page_size ≡ 0
      → page < 2 ^ 32
      → page_address stm32 dev_id (write_u32_le page) ≡ page
  unfolding page_address stm32_port
  page_address-write_u32_le page aligned below =
      rw (read_u32_le-write_u32_le page below) (omega (arith, bit_and_field 10 22 page))

  selected : ℕ → Pump (Option (Device B T P)) → Pump (Option (Device B T P))
  selected page s =
      answer stm32 dev_id page_selected (write_u32_le page)
        (record s { sel_page = record (s.sel_page) { addr = page } })

  select_lem :
      (page : ℕ) (s : Pump (Option (Device B T P)))
      → page % page_size ≡ 0
      → page < 2 ^ 32
      → page_writeable start stop page ≡ true
      → handle stm32 dev_id select_page (write_u32_le page) s ≡ selected page s
  unfolding handle on_select_page selected
  select_lem page s aligned below accepted =
      let four : (length (write_u32_le page) == 4) ≡ true = unfold write_u32_le in refl in
      let ok : stm32.page_writeable page ≡ true = unfold stm32_port in accepted in
      rw (four, page_address-write_u32_le page aligned below) (rw ok refl)

  -- An answer leaves the flash alone.
  selected-device :
      (page : ℕ) (s : Pump (Option (Device B T P))) (d : Device B T P)
      → s.device ≡ some d
      → (after : Device B T P) × ((selected page s).device ≡ some after) × (after.flash ≡ d.flash)
  unfolding selected answer send stm32_port
  selected-device page s d running = rw running (_, refl, refl)

  -- On the STM32, in the state UNLOCKED with a whole buffer, with no operation selected in
  -- FLASH_CR and a flash that gets ready in time, a SELECT_PAGE for the address of a page that
  -- cnFlashPageWriteable accepts, a SEEK to 0, any number of WRITEs with the bytes of a page and a
  -- COMMIT_WRITES, handled one after another, all return; the page then holds the bytes, every
  -- other page is as it was, and FLASH_CR is ready for the next page. The page is neither the one
  -- at address 0 nor the last below 2^32.
  pub session-IsWritten :
      (page : ℕ) (payloads : List (List ℕ)) (s : Pump (Option (Device B T P))) (d : Device B T P)
      (aligned : page % page_size ≡ 0) (inside : page + page_size < 2 ^ 32) (not_zero : 0 < page)
      (sent : length (flatten payloads) ≡ page_size)
      → page_writeable start stop page ≡ true
      → s.state ≡ unlocked
      → s.device ≡ some d
      → length s.sel_page.writes ≡ page_size
      → controller.read_cr d.flash.hardware ≡ 0
      → (after : Device B T P) × ((handle stm32 dev_id commit_writes [] (
            upload stm32 dev_id payloads
              (handle stm32 dev_id select_page (write_u32_le page) s))).device
          ≡ some after)
        × IsWritten controller half ar laws page aligned inside not_zero
            (flatten payloads)
            sent
            d.flash.hardware
            after.flash.hardware
  unfolding answer
  session-IsWritten page payloads s d aligned inside not_zero sent accepted open_state running whole
        reset =
      let (chosen, chosen_running, same) = selected-device page s d running in
      let uploaded =
        upload_lem stm32 dev_id payloads (selected page s) (unfold stm32_port in omega arith)
          (unfold selected in unfold stm32_port in whole) (unfold stm32_port in sent) in
      let ready = upload stm32 dev_id payloads (selected page s) in
      let ready_cr : controller.read_cr chosen.flash.hardware ≡ 0 = rw same reset in
      let (after, returns, written) =
        commit_writes-IsWritten page (flatten payloads) ready chosen aligned inside not_zero sent
          (rw uploaded (unfold selected in open_state)) (rw uploaded chosen_running)
          (rw uploaded (unfold selected in refl)) (rw uploaded refl) ready_cr in
      rw (select_lem page s aligned (omega arith) accepted)
        (after, returns, rw (ap (λ (f : Flash B). f.hardware) same) at written)
