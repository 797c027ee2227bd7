-- ===== src/Avr/Can/Shift/Keeping.antt =====
-- What the steps of an SPI link keep, `cnCANInit`, `cnCANSend` and `cnCANRecv` of src/avr/can.c keep.
use cannuccia.Common.{
  ℕ, zero, suc, bit_and, bit_or, ◌≡◌, inl, inr, true, false, List, [], ◌∷◌, ◌++◌, Option, none,
  some, u8, ◌<<<◌, min, Bool-cases,
}
use cannuccia.Avr.Can.Link.{Spi, send_all, receive_all}
use cannuccia.Avr.Can.Registers.{
  put_eid, mcp_read, mcp_write, mcp_write_multi, mcp_modify, change_mode, set_filter0,
}
use cannuccia.Avr.Can.Setup.{Can, configured, mcp_setup, refilter, can_init}
use cannuccia.Avr.Can.Messages.{
  read_status, load_and_send, send_frame, send_to, can_send, receive_from, can_recv, capped_length,
  copy_payload, dlc,
}

pub record IsKeptBy {S : Type 0} (spi : Spi S) (P : S → Type 0) : Type 0 where
  pub select : (s : S) → P s → P (spi.chip_select s)
  pub deselect : (s : S) → P s → P (spi.chip_deselect s)
  pub exchange : (b : ℕ) (s : S) → P s → P (spi.exchange b s).1
  pub delay : (s : S) → P s → P (spi.delay s)

module _ {S : Type 0} (spi : Spi S) (P : S → Type 0) (kept : IsKeptBy spi P) where
  send_all_keeps : (bs : List ℕ) (s : S) → P s → P (send_all spi bs s).1
  unfolding send_all
  send_all_keeps [] s p = p
  send_all_keeps (b ∷ bs) s p = send_all_keeps bs (spi.exchange b s).1 (kept.exchange b s p)

  receive_all_keeps : (n : ℕ) (s : S) → P s → P (receive_all spi n s).1
  unfolding receive_all
  receive_all_keeps zero s p = p
  receive_all_keeps (suc n) s p =
      receive_all_keeps n (spi.exchange 0x00 s).1 (kept.exchange 0x00 s p)

  mcp_read_keeps : (addr : ℕ) (s : S) → P s → P (mcp_read spi addr s).1
  unfolding mcp_read
  mcp_read_keeps addr s p =
      kept.deselect _
        (kept.exchange 0x00 _ (kept.exchange addr _ (kept.exchange 0x03 _ (kept.select s p))))

  mcp_write_keeps : (addr value : ℕ) (s : S) → P s → P (mcp_write spi addr value s).1
  unfolding mcp_write
  mcp_write_keeps addr value s p =
      kept.deselect _
        (kept.exchange value _ (kept.exchange addr _ (kept.exchange 0x02 _ (kept.select s p))))

  mcp_write_multi_keeps :
      (addr : ℕ) (values : List ℕ) (s : S) → P s → P (mcp_write_multi spi addr values s).1
  unfolding mcp_write_multi
  mcp_write_multi_keeps addr values s p =
      kept.deselect _
        (send_all_keeps values _ (kept.exchange addr _ (kept.exchange 0x02 _ (kept.select s p))))

  mcp_modify_keeps : (addr mask value : ℕ) (s : S) → P s → P (mcp_modify spi addr mask value s).1
  unfolding mcp_modify
  mcp_modify_keeps addr mask value s p = kept.deselect _ (
      kept.exchange value _
        (kept.exchange mask _ (kept.exchange addr _ (kept.exchange 0x05 _ (kept.select s p)))))

  change_mode_keeps : (mode : ℕ) (s : S) → P s → P (change_mode spi mode s).1
  unfolding change_mode
  change_mode_keeps mode s p = mcp_read_keeps 0x0F _ (mcp_modify_keeps 0x0F 0xE0 mode s p)

  set_filter0_keeps : (id mask : ℕ) (s : S) → P s → P (set_filter0 spi id mask s).1
  unfolding set_filter0
  set_filter0_keeps id mask s p =
      mcp_write_multi_keeps 0x20 (put_eid mask) _ (mcp_write_multi_keeps 0x00 (put_eid id) s p)

  configured_keeps : (id mask : ℕ) (s : S) → P s → P (configured spi id mask s).1
  unfolding configured
  configured_keeps id mask s p = change_mode_keeps 0x00 _ (
      set_filter0_keeps id mask _
        (mcp_write_keeps 0x28 0x01 _ (mcp_write_keeps 0x29 0x91 _ (mcp_write_keeps 0x2A 0x00 s p))))

  mcp_setup_keeps : (id mask : ℕ) (s : S) → P s → P (mcp_setup spi id mask s).1
  unfolding mcp_setup
  mcp_setup_keeps id mask s p =
      let asked = spi.delay (spi.chip_deselect (spi.exchange 0xC0 (spi.chip_select s)).1) in
      let kept_so_far : P asked =
        kept.delay _ (kept.deselect _ (kept.exchange 0xC0 _ (kept.select s p))) in
      let configuring = change_mode_keeps 0x80 asked kept_so_far in
      elim (Bool-cases (change_mode spi 0x80 asked).0) [
        | inl ok ↦ rw ok (configured_keeps id mask _ configuring)
        | inr refused ↦ rw refused configuring
      ]

  refilter_keeps : (id mask : ℕ) (s : S) → P s → P (refilter spi id mask s).1
  unfolding refilter
  refilter_keeps id mask s p =
      let configuring = change_mode_keeps 0x80 s p in
      elim (Bool-cases (change_mode spi 0x80 s).0) [
        | inl ok ↦ rw ok (change_mode_keeps 0x00 _ (set_filter0_keeps id mask _ configuring))
        | inr refused ↦ rw refused configuring
      ]

  -- A first `cnCANInit` configures the link, which need not have been configured before.
  pub can_init_first :
      (id mask : ℕ) (c : Can S)
      → c.inited ≡ false
      → P (spi.configure c.link)
      → P (can_init spi id mask c).0.link
  unfolding can_init
  can_init_first id mask c first p = rw first (mcp_setup_keeps id mask _ p)

  pub can_init_again :
      (id mask : ℕ) (c : Can S) → c.inited ≡ true → P c.link → P (can_init spi id mask c).0.link
  unfolding can_init
  can_init_again id mask c again p = rw again (refilter_keeps id mask c.link p)

  read_status_keeps : (request : ℕ) (s : S) → P s → P (read_status spi request s).1
  unfolding read_status
  read_status_keeps request s p =
      kept.deselect _ (kept.exchange 0x00 _ (kept.exchange request _ (kept.select s p)))

  load_and_send_keeps :
      (mailbox : ℕ) (buffer : List ℕ) (s : S) → P s → P (load_and_send spi mailbox buffer s).1
  unfolding load_and_send
  load_and_send_keeps mailbox buffer s p = kept.deselect _ (
      kept.exchange _ _ (
        kept.select _
          (kept.deselect _ (send_all_keeps buffer _ (kept.exchange _ _ (kept.select s p))))))

  send_frame_keeps :
      (id len mailbox : ℕ) (payload : Option (List ℕ)) (s : S)
      → P s
      → P (send_frame spi id len mailbox payload s).1
  unfolding send_frame
  send_frame_keeps id len mailbox none s p = p
  send_frame_keeps id len mailbox (some payload) s p =
      load_and_send_keeps mailbox (put_eid id ++ (dlc id len ∷ payload)) s p

  send_to_keeps :
      (id len : ℕ) (bytes : List ℕ) (mailbox : Option ℕ) (s : S)
      → P s
      → P (send_to spi id len bytes mailbox s).1
  unfolding send_to
  send_to_keeps id len bytes none s p = p
  send_to_keeps id len bytes (some mailbox) s p =
      send_frame_keeps id len mailbox (copy_payload 0 len bytes) s p

  pub can_send_keeps :
      (id len : ℕ) (bytes : List ℕ) (s : S) → P s → P (can_send spi id len bytes s).1
  unfolding can_send
  can_send_keeps id len bytes s p =
      send_to_keeps id (capped_length len) bytes _ _ (read_status_keeps 0xA0 s p)

  receive_from_keeps :
      (max_len : ℕ) (mailbox : Option ℕ) (s : S) → P s → P (receive_from spi max_len mailbox s).1
  unfolding receive_from
  receive_from_keeps max_len none s p = p
  receive_from_keeps max_len (some mailbox) s p =
      let request = bit_or 0x90 (u8 (mailbox <<< 1)) in
      let started = spi.exchange request (spi.chip_select s) in
      let regs = receive_all spi 4 started.1 in
      let header = spi.exchange 0x00 regs.1 in
      let four = receive_all_keeps 4 started.1 (kept.exchange request _ (kept.select s p)) in
      let count = min (bit_and header.0 0x0F) max_len in
      kept.deselect (receive_all spi count header.1).1
        (receive_all_keeps count header.1 (kept.exchange 0x00 regs.1 four))

  pub can_recv_keeps : (max_len : ℕ) (s : S) → P s → P (can_recv spi max_len s).1
  unfolding can_recv
  can_recv_keeps max_len s p = receive_from_keeps max_len _ _ (read_status_keeps 0xB0 s p)
