-- ===== src/Pump/Session.antt =====
-- What the master is answered after it has sent a page (src/common/main.c).
use mathlib.Core.List.{flatten}
use cannuccia.Common.{ℕ, ◌<◌, ◌≡◌, refl, ◌∙◌, ap, true, List, length}
use cannuccia.Util.{write_u16_le, write_u32_le}
use cannuccia.Protocol.{check_writes, commit_writes, writes_checked, writes_committed}
use cannuccia.Port.{Port}
use cannuccia.Pump.Handlers.{unlocked, Pump, overwrite, send, handle}
use cannuccia.Pump.Upload.{upload, upload_lem}

module _ {D : Type 0} (port : Port D) (dev_id : ℕ) where
  open port use {page_size}

  -- After a whole page has been sent, by a SEEK to 0 and any split into WRITEs, CHECK_WRITES is
  -- answered with the checksum of the bytes that were sent, in the first two bytes of `outMsgData`.
  -- This is so whether or not a page is selected, unlike what docs/CANnuccia.xlsx says of a SEEK
  -- and a WRITE without a SELECT_PAGE.
  pub check_writes-upload :
      (payloads : List (List ℕ)) (bytes : List ℕ) (s : Pump D)
      → 0 < page_size
      → length s.sel_page.writes ≡ page_size
      → length (flatten payloads) ≡ page_size
      → (handle port dev_id check_writes bytes (upload port dev_id payloads s)).device
        ≡ send port dev_id writes_checked 2
            (overwrite (write_u16_le (port.crc16 page_size (flatten payloads))) s.out_data)
            s.device
  unfolding handle write_u16_le write_u32_le
  check_writes-upload payloads bytes s pos whole sent =
      ap (λ (t : Pump D). (handle port dev_id check_writes bytes t).device)
        (upload_lem port dev_id payloads s pos whole sent)

  -- After a whole page has been sent in the state UNLOCKED, COMMIT_WRITES begins the selected page,
  -- fills it with the bytes that were sent and ends it, and where the driver reports no failure it
  -- is answered with the page's address, in the first four bytes of `outMsgData`.
  pub commit_writes-upload :
      (payloads : List (List ℕ)) (bytes : List ℕ) (s : Pump D) (begun ended : D)
      → 0 < page_size
      → length s.sel_page.writes ≡ page_size
      → length (flatten payloads) ≡ page_size
      → s.state ≡ unlocked
      → port.begin_write s.sel_page.addr s.device ≡ (begun, true)
      → port.end_write (port.fill 0 page_size (flatten payloads) begun).0 ≡ (ended, true)
      → (handle port dev_id commit_writes bytes (upload port dev_id payloads s)).device
        ≡ send port dev_id writes_committed 4
            (overwrite (write_u32_le s.sel_page.addr) s.out_data)
            ended
  unfolding handle write_u16_le write_u32_le
  commit_writes-upload payloads bytes s begun ended pos whole sent open_flash begins ends =
      ap (λ (t : Pump D). (handle port dev_id commit_writes bytes t).device)
        (upload_lem port dev_id payloads s pos whole sent)
      ∙ rw open_flash (rw begins (rw ends refl))
