-- ===== src/Avr/Can/Shift/Returning.antt =====
-- The driver of src/avr/can.c returns, with SPI hardware that finishes its transfers.
use mathlib.Core.Option
use cannuccia.Common.{
  ℕ, zero, suc, ◌<◌, ◌≤◌, ◌≡◌, length, ◌≢◌, refl, ◌∙◌, ◌⊎◌, inl, inr, bit_and, true, false, List,
  Option, none, some, ◌==◌, arith, Bool-cases,
}
use cannuccia.Avr.Can.Setup.{Can, can_init}
use cannuccia.Avr.Can.Messages.{can_send, can_recv, sent, busy}
use cannuccia.Avr.Can.Send.{can_send_result}
use cannuccia.Avr.Can.Shift.{
  ShiftRegister, spi_select, spi_deselect, wait_spif, spi_transfer, configure_spi, spi_link,
  exchange_with,
}
use cannuccia.Avr.Can.Shift.Keeping.{
  IsKeptBy, can_init_first, can_init_again, can_send_keeps, can_recv_keeps,
}

module _ {H : Type 0} (avr : ShiftRegister H) where
  -- SPIF is set when SPSR is read for the `n`th time.
  unfoldable pub DoneIn : ℕ → H → Type 0
  DoneIn zero h = bit_and (avr.read_spsr h).0 0x80 ≢ 0
  DoneIn (suc n) h = DoneIn n (avr.read_spsr h).1

  -- What the data sheet says of SPCR while nothing pulls the pin SS low, which would clear MSTR: it
  -- holds what was written last, and with SPE and MSTR set a byte that is written to SPDR is
  -- shifted out, within `fuel` reads of SPSR.
  pub record IsMaster (fuel : ℕ) (spcr : H → ℕ) : Type 0 where
    pub written : (v : ℕ) (h : H) → spcr (avr.write_spcr v h) ≡ v
    pub portb : (v : ℕ) (h : H) → spcr (avr.write_portb v h) ≡ spcr h
    pub spsr : (v : ℕ) (h : H) → spcr (avr.write_spsr v h) ≡ spcr h
    pub spdr : (v : ℕ) (h : H) → spcr (avr.write_spdr v h) ≡ spcr h
    pub status : (h : H) → spcr (avr.read_spsr h).1 ≡ spcr h
    pub received : (h : H) → spcr (avr.read_spdr h).1 ≡ spcr h
    pub later : (ms : ℕ) (h : H) → spcr (avr.delay_ms ms h) ≡ spcr h
    pub finishes :
        (byte : ℕ) (h : H) → spcr h ≡ 0x50 → (n : ℕ) × (n < fuel) × DoneIn n (avr.write_spdr byte h)

  -- No call has failed to return, and the SPI is a master.
  abbrev pub IsRunning : (H → ℕ) → Option H → Type 0
  IsRunning spcr none = ⊥
  IsRunning spcr (some h) = spcr h ≡ 0x50

  module _ (fuel : ℕ) (spcr : H → ℕ) (laws : IsMaster fuel spcr) where
    wait_spif_returns :
        (count n : ℕ) (h : H)
        → n < count
        → DoneIn n h
        → (after : H) × (wait_spif avr count h ≡ some after) × (spcr after ≡ spcr h)
    unfolding wait_spif DoneIn
    wait_spif_returns zero n h below done = absurd (omega arith)
    wait_spif_returns (suc count) zero h below done =
        let set : (bit_and (avr.read_spsr h).0 0x80 == 0) ≡ false = ground arith in
        rw set ((avr.read_spsr h).1, refl, laws.status h)
    wait_spif_returns (suc count) (suc n) h below done =
        elim (Bool-cases (bit_and (avr.read_spsr h).0 0x80 == 0)) [
          | inl waiting ↦
              let (after, returns, same) =
                wait_spif_returns count n (avr.read_spsr h).1 (omega arith) done in
              rw waiting (after, returns, same ∙ laws.status h)
          | inr now ↦ rw now ((avr.read_spsr h).1, refl, laws.status h)
        ]

    spi_transfer-IsRunning :
        (byte : ℕ) (h : H)
        → spcr h ≡ 0x50
        → (r : ℕ × H) × (spi_transfer avr fuel byte h ≡ some r) × (spcr r.1 ≡ 0x50)
    unfolding spi_transfer
    spi_transfer-IsRunning byte h master =
        let (n, below, done) = laws.finishes byte h master in
        let (after, returns, same) = wait_spif_returns fuel n (avr.write_spdr byte h) below done in
        (
          avr.read_spdr after,
          rw returns refl,
          laws.received after ∙ same ∙ laws.spdr byte h ∙ master,
        )

    exchange-IsRunning :
        (byte : ℕ) (link : Option H)
        → IsRunning spcr link
        → IsRunning spcr ((spi_link avr fuel).exchange byte link).1
    unfolding spi_link exchange_with
    exchange-IsRunning byte none running = running
    exchange-IsRunning byte (some h) running =
        let (r, returns, master) = spi_transfer-IsRunning byte h running in rw returns master

    map-IsRunning :
        (f : H → H) (link : Option H)
        → ((h : H) → spcr (f h) ≡ spcr h)
        → IsRunning spcr link
        → IsRunning spcr (Option.map f link)
    map-IsRunning f none same running = running
    map-IsRunning f (some h) same running = same h ∙ running

    spi_link-IsKeptBy : IsKeptBy (spi_link avr fuel) (IsRunning spcr)
    unfolding spi_link spi_select spi_deselect
    spi_link-IsKeptBy = record {
      select = λ link. map-IsRunning (spi_select avr) link (λ h. laws.portb _ h);
      deselect = λ link. map-IsRunning (spi_deselect avr) link (λ h. laws.portb _ h);
      exchange = exchange-IsRunning;
      delay = λ link. map-IsRunning (avr.delay_ms 1) link (laws.later 1);
    }

    configure-IsRunning :
        (link : Option H) → link ≢ none → IsRunning spcr ((spi_link avr fuel).configure link)
    unfolding spi_link configure_spi
    configure-IsRunning none h = absurd (h refl)
    configure-IsRunning (some h) _ = laws.spsr _ _ ∙ laws.status _ ∙ laws.written 0x50 _

    -- On an ATmega328P whose SPI, as a master with nothing that pulls its SS pin low, finishes its
    -- transfers within `fuel` reads of SPSR, cnCANInit returns where it is called for the first time
    -- or the SPI is a master already, and after it cnCANSend and cnCANRecv return. The length of the
    -- message sent is at most 8 and its array has eight bytes, which cnCANSend reads whatever the
    -- length is: it then sends eight bytes or finds no free mailbox. The SPI is a master again
    -- after each of the three.
    pub can_init-IsRunning :
        (id mask send_id len max_len : ℕ) (bytes : List ℕ) (c : Can (Option H))
        → len ≤ 8
        → 8 ≤ length bytes
        → c.link ≢ none
        → (c.inited ≡ false) ⊎ IsRunning spcr c.link
        → let spi = spi_link avr fuel in
          let link = (can_init spi id mask c).0.link in
          let (result, after) = can_send spi send_id len bytes link in
          IsRunning spcr link
          × IsRunning spcr after
          × ((result ≡ sent 8) ⊎ (result ≡ busy))
          × IsRunning spcr (can_recv spi max_len link).1
    can_init-IsRunning id mask send_id len max_len bytes c short enough connected start =
        let spi = spi_link avr fuel in
        let link = (can_init spi id mask c).0.link in
        let running : IsRunning spcr link = elim (Bool-cases c.inited) [
          | inl again ↦
              can_init_again spi (IsRunning spcr) spi_link-IsKeptBy id mask c again
                (master again start)
          | inr first ↦
              can_init_first spi (IsRunning spcr) spi_link-IsKeptBy id mask c first
                (configure-IsRunning c.link connected)
        ] in
        (
          running,
          can_send_keeps spi (IsRunning spcr) spi_link-IsKeptBy send_id len bytes link running,
          can_send_result spi send_id len bytes link short enough,
          can_recv_keeps spi (IsRunning spcr) spi_link-IsKeptBy max_len link running,
        )
      where
        master :
            c.inited ≡ true → (c.inited ≡ false) ⊎ IsRunning spcr c.link → IsRunning spcr c.link
        master again (inl first) = absurd (ground arith)
        master again (inr running) = running
