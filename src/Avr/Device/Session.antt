-- ===== src/Avr/Device/Session.antt =====
-- Programming pages over the bus, from SELECT_PAGE to COMMIT_WRITES, on the AVR.
use mathlib.Core.List.{flatten}
use cannuccia.Common.{
  ℕ, ◌+◌, ◌*◌, ◌^◌, ◌<◌, ◌≡◌, refl, ap, ◌∙◌, inl, inr, true, List, [], length, ◌==◌, arith,
  Bool-cases,
}
use cannuccia.Common.Bits.{bit_and_field}
use cannuccia.Util.{write_u32_le}
use cannuccia.Util.Endian.{read_u32_le-write_u32_le}
use cannuccia.Protocol.{select_page, commit_writes, page_selected}
use cannuccia.Port.{Port}
use cannuccia.Pump.Handlers.{
  unlocked, Page, Pump, handle, answer, on_commit_writes, on_select_page, page_address, is_unlocked,
}
use cannuccia.Pump.Upload.{upload, upload_lem}
use cannuccia.Avr.Flash.{Boot, begin_write, end_write, page_size}
use cannuccia.Avr.Flash.Pages.{application_pages, page_writeable_iff}
use cannuccia.Avr.Flash.Commit.{commit}
use cannuccia.Avr.Can.Link.{Spi}
use cannuccia.Avr.Device.{Device, avr_port}

module _ {B S : Type 0} (self : Boot B) (spi : Spi S) (update : ℕ → ℕ → ℕ) (ctz : ℕ → ℕ)
    (uninitialised beyond : List ℕ) (dev_id : ℕ) where
  abbrev avr : Port (Device B S)
  avr = avr_port self spi update ctz uninitialised beyond

  -- One page: a SELECT_PAGE, the SEEK and the WRITEs, and a COMMIT_WRITES.
  unfoldable pub program_one : ℕ → List (List ℕ) → Pump (Device B S) → Pump (Device B S)
  program_one page payloads s =
      handle avr dev_id commit_writes []
        (upload avr dev_id payloads (handle avr dev_id select_page (write_u32_le page) s))

  page_address-write_u32_le :
      (k : ℕ)
      → k * page_size < 2 ^ 16
      → page_address avr dev_id (write_u32_le (k * page_size)) ≡ k * page_size
  unfolding page_address avr_port
  page_address-write_u32_le k h =
      rw (read_u32_le-write_u32_le (k * page_size) (omega arith))
        (omega (arith, bit_and_field 7 9 (k * page_size)))

  -- What the three handlers leave, for a page that is in front of the bootloader.
  select_lem :
      (k : ℕ) (s : Pump (Device B S))
      → k + 1 < application_pages
      → handle avr dev_id select_page (write_u32_le (k * page_size)) s
        ≡ answer avr dev_id page_selected
            (write_u32_le (k * page_size))
            (record s { sel_page = record (s.sel_page) { addr = k * page_size } })
  unfolding handle on_select_page
  select_lem k s h =
      let page = k * page_size in
      let four : (length (write_u32_le page) == 4) ≡ true = unfold write_u32_le in refl in
      let ok : avr.page_writeable page ≡ true =
        unfold avr_port in (page_writeable_iff k (omega arith)).1 (inl h) in
      rw (four, page_address-write_u32_le k (omega arith)) (rw ok refl)

  commit_flash :
      (s : Pump (Device B S))
      → is_unlocked s.state ≡ true
      → (on_commit_writes avr dev_id s).device.flash
        ≡ (commit self s.sel_page.addr s.sel_page.writes s.device.flash).0
  unfolding on_commit_writes avr_port begin_write commit
  commit_flash s may =
      let begun : Device B S = record (s.device) {
        flash = (begin_write self s.sel_page.addr s.device.flash).0;
      } in
      let filled : Device B S = (avr.fill 0 page_size s.sel_page.writes begun).0 in
      elim (Bool-cases (end_write self filled.flash).1) [
        | inl ok ↦ rw may (rw ok refl)
        | inr refused ↦ rw may (rw refused refl)
      ]

  commit_keeps_pump :
      (s : Pump (Device B S))
      → ((on_commit_writes avr dev_id s).state ≡ s.state)
        × ((on_commit_writes avr dev_id s).sel_page ≡ s.sel_page)
  unfolding on_commit_writes avr_port begin_write
  commit_keeps_pump s =
      let begun : Device B S = record (s.device) {
        flash = (begin_write self s.sel_page.addr s.device.flash).0;
      } in
      let filled : Device B S = (avr.fill 0 page_size s.sel_page.writes begun).0 in
      elim (Bool-cases (is_unlocked s.state)) [
        | inl may ↦ elim (Bool-cases (end_write self filled.flash).1) [
          | inl ok ↦ rw may (rw ok (refl, refl))
          | inr refused ↦ rw may (rw refused (refl, refl))
        ]
        | inr may_not ↦ rw may_not (refl, refl)
      ]

  -- What the SELECT_PAGE, the SEEK and the WRITEs leave.
  selected_and_sent : ℕ → List (List ℕ) → Pump (Device B S) → Pump (Device B S)
  selected_and_sent page payloads s =
      record (answer avr dev_id page_selected (write_u32_le page) s) {
        sel_page = record { addr = page; write_offset = page_size; writes = flatten payloads };
      }

  upload-select :
      (k : ℕ) (payloads : List (List ℕ)) (s : Pump (Device B S))
      → k + 1 < application_pages
      → length s.sel_page.writes ≡ page_size
      → length (flatten payloads) ≡ page_size
      → upload avr dev_id payloads (handle avr dev_id select_page (write_u32_le (k * page_size)) s)
        ≡ selected_and_sent (k * page_size) payloads s
  unfolding selected_and_sent answer
  upload-select k payloads s h whole sent =
      ap (upload avr dev_id payloads) (select_lem k s h)
      ∙ (unfold avr_port in
          upload_lem avr dev_id payloads
            (answer avr dev_id page_selected (write_u32_le (k * page_size))
              (record s { sel_page = record (s.sel_page) { addr = k * page_size } }))
            (omega arith) whole sent)

  -- What programming one page leaves: the flash as the driver's three calls leave it, and the pump
  -- ready for the next page.
  pub program_one_lem :
      (k : ℕ) (payloads : List (List ℕ)) (s : Pump (Device B S))
      → k + 1 < application_pages
      → s.state ≡ unlocked
      → length s.sel_page.writes ≡ page_size
      → length (flatten payloads) ≡ page_size
      → let after = program_one (k * page_size) payloads s in
        (after.device.flash ≡ (commit self (k * page_size) (flatten payloads) s.device.flash).0)
        × (after.state ≡ unlocked)
        × (after.sel_page.writes ≡ flatten payloads)
  unfolding program_one handle
  program_one_lem k payloads s h open_flash whole sent =
      let page = k * page_size in
      let ready = selected_and_sent page payloads s in
      let same = upload-select k payloads s h whole sent in
      let (state_kept, page_kept) = commit_keeps_pump ready in
      rw same (
        commit_flash ready (unfold selected_and_sent in rw open_flash refl)
            ∙ (unfold selected_and_sent in unfold avr_port in refl),
        state_kept ∙ (unfold selected_and_sent in open_flash),
        ap (λ (p : Page). p.writes) page_kept ∙ (unfold selected_and_sent in refl),
      )
