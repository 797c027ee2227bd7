-- ===== src/Pump/Guards/Calls.antt =====
-- What one message of the pump of src/common/main.c asks of the hardware.
use cannuccia.Common.{
  ℕ, ◌≡◌, ◌⊎◌, inl, inr, Bool, true, false, List, length, ◌==◌, arith, Bool-cases,
}
use cannuccia.Protocol.{
  Command, prog_req, prog_done, unlock, select_page, seek, write, check_writes, commit_writes,
  unknown,
}
use cannuccia.Port.{Port}
use cannuccia.Pump.Handlers.{
  State, idle, locked, Pump, handle, is_unlocked, on_prog_req, on_unlock, on_select_page,
  page_address, fill_commit, on_commit_writes,
}

module _ {D : Type 0} (port : Port D) where
  open port use {page_size, page_writeable}

  -- A property of the hardware that the calls of the pump keep, where a page is begun only at
  -- address 0 or at an address that is `Allowed`, and a whole page is filled.
  pub record IsKept (Allowed : ℕ → Type 0) (P : D → Type 0) : Type 0 where
    pub recv : (d : D) → P d → P (port.can_recv 8 d).0
    pub send : (id len : ℕ) (bytes : List ℕ) (d : D) → P d → P (port.can_send id len bytes d).0
    pub stop : (d : D) → P d → P (port.timer_stop d)
    pub unlock_flash : (d : D) → P d → P (port.flash_unlock d).0
    pub begin : (a : ℕ) (d : D) → (a ≡ 0) ⊎ Allowed a → P d → P (port.begin_write a d).0
    pub fill_page :
        (bytes : List ℕ) (d : D)
        → length bytes ≡ page_size
        → P d
        → P (port.fill 0 page_size bytes d).0
    pub end_page : (d : D) → P d → P (port.end_write d).0

  -- The addresses that `cnFlashPageWriteable` accepts.
  abbrev pub Writeable : ℕ → Type 0
  Writeable a = page_writeable a ≡ true

  module _ (Allowed : ℕ → Type 0) (P : D → Type 0) (kept : IsKept Allowed P) (dev_id : ℕ) where
    on_prog_req-IsKept :
        (st : State) (s : Pump D) → P s.device → P (on_prog_req port dev_id st s).device
    unfolding on_prog_req
    on_prog_req-IsKept idle s p = kept.send _ _ _ _ (kept.stop _ p)
    on_prog_req-IsKept _ s p = kept.send _ _ _ _ p

    on_unlock-IsKept :
        (st : State) (s : Pump D) → P s.device → P (on_unlock port dev_id st s).device
    unfolding on_unlock
    on_unlock-IsKept idle s p = p
    on_unlock-IsKept locked s p =
        let after = kept.unlock_flash s.device p in
        elim (Bool-cases (port.flash_unlock s.device).1) [
          | inl ok ↦ rw ok (kept.send _ _ _ _ after)
          | inr refused ↦ rw refused after
        ]
    on_unlock-IsKept _ s p = kept.send _ _ _ _ p

    on_select_page-IsKept :
        (bytes : List ℕ) (s : Pump D) → P s.device → P (on_select_page port dev_id bytes s).device
    unfolding on_select_page
    on_select_page-IsKept bytes s p = elim (Bool-cases (length bytes == 4)) [
      | inl four ↦ elim (Bool-cases (page_writeable (page_address port dev_id bytes))) [
        | inl ok ↦ rw (four, ok) (kept.send _ _ _ _ p)
        | inr refused ↦ rw (four, refused) p
      ]
      | inr other ↦ rw other p
    ]

    fill_commit-IsKept :
        (s : Pump D) (r : D × Bool)
        → length s.sel_page.writes ≡ page_size
        → P r.0
        → P (fill_commit port dev_id s r).device
    unfolding fill_commit
    fill_commit-IsKept s (d, false) whole p = p
    fill_commit-IsKept s (d, true) whole p =
        let filled = (port.fill 0 page_size s.sel_page.writes d).0 in
        let after = kept.end_page filled (kept.fill_page s.sel_page.writes d whole p) in
        elim (Bool-cases (port.end_write filled).1) [
          | inl ok ↦ rw ok (kept.send _ _ _ _ after)
          | inr refused ↦ rw refused after
        ]

    on_commit_writes-IsKept :
        (s : Pump D)
        → length s.sel_page.writes ≡ page_size
        → (s.sel_page.addr ≡ 0) ⊎ Allowed s.sel_page.addr
        → P s.device
        → P (on_commit_writes port dev_id s).device
    unfolding on_commit_writes
    on_commit_writes-IsKept s whole chosen p = elim (Bool-cases (is_unlocked s.state)) [
      | inl may ↦ rw may (
          fill_commit-IsKept s (port.begin_write s.sel_page.addr s.device) whole
            (kept.begin s.sel_page.addr s.device chosen p))
      | inr may_not ↦ rw may_not p
    ]

    pub handle-IsKept :
        (c : Command) (bytes : List ℕ) (s : Pump D)
        → length s.sel_page.writes ≡ page_size
        → (s.sel_page.addr ≡ 0) ⊎ Allowed s.sel_page.addr
        → P s.device
        → P (handle port dev_id c bytes s).device
    unfolding handle
    handle-IsKept prog_req bytes s whole chosen p = on_prog_req-IsKept s.state s p
    handle-IsKept unlock bytes s whole chosen p = on_unlock-IsKept s.state s p
    handle-IsKept select_page bytes s whole chosen p = on_select_page-IsKept bytes s p
    handle-IsKept seek bytes s whole chosen p = ground arith
    handle-IsKept write bytes s whole chosen p = p
    handle-IsKept check_writes bytes s whole chosen p = kept.send _ _ _ _ p
    handle-IsKept commit_writes bytes s whole chosen p = on_commit_writes-IsKept s whole chosen p
    handle-IsKept prog_done bytes s whole chosen p = kept.send _ _ _ _ p
    handle-IsKept unknown bytes s whole chosen p = p
