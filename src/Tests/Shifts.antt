-- ===== src/Tests/Shifts.antt =====
-- The theorem that the driver of src/avr/can.c returns, on SPI hardware that needs two reads of SPSR.
use cannuccia.Common.{
  ◌⊎◌, ◌≡◌, List, ℕ, refl, inl, Bool, true, false, Option, some, [], ◌∷◌, if◌then◌else◌, arith,
}
use cannuccia.Avr.Can.Setup.{Can, can_init}
use cannuccia.Avr.Can.Messages.{can_send, can_recv, sent, busy}
use cannuccia.Avr.Can.Shift.{ShiftRegister, spi_link}
use cannuccia.Avr.Can.Shift.Returning.{DoneIn, IsMaster, IsRunning, can_init-IsRunning}

pub record Pins : Type 0 where
  pub portb : ℕ
  pub ddrb : ℕ
  pub spcr : ℕ
  pub shifting : Bool

abbrev pub pins : ShiftRegister Pins
pins = record {
  read_portb = λ h. h.portb;
  write_portb = λ v h. record h { portb = v };
  read_ddrb = λ h. h.ddrb;
  write_ddrb = λ v h. record h { ddrb = v };
  write_spcr = λ v h. record h { spcr = v };
  read_spsr = λ h. (if h.shifting then 0 else 0x80, record h { shifting = false });
  write_spsr = λ v h. h;
  read_spdr = λ h. (0x5A, h);
  write_spdr = λ v h. record h { shifting = true };
  delay_ms = λ ms h. h;
}

pins-IsMaster : IsMaster pins 2 (λ h. h.spcr)
unfolding DoneIn
pins-IsMaster = record {
  written = λ v h. refl;
  portb = λ v h. refl;
  spsr = λ v h. refl;
  spdr = λ v h. refl;
  status = λ h. refl;
  received = λ h. refl;
  later = λ ms h. refl;
  finishes = λ byte h master. (1, omega arith, λ e. cc);
}

abbrev reset_can : Can (Option Pins)
reset_can = record {
  inited = false;
  link = some (record { portb = 0; ddrb = 0; spcr = 0; shifting = false });
}

abbrev two_of_eight : List ℕ
two_of_eight = 1 ∷ 2 ∷ 0 ∷ 0 ∷ 0 ∷ 0 ∷ 0 ∷ 0 ∷ []

can_init-IsRunning_example :
    let link = (can_init (spi_link pins 2) 0xCA003074 0xFF0000FC reset_can).0.link in
    let (result, after) = can_send (spi_link pins 2) 0xCB001074 2 two_of_eight link in
    IsRunning pins (λ h. h.spcr) link
    × IsRunning pins (λ h. h.spcr) after
    × ((result ≡ sent 8) ⊎ (result ≡ busy))
    × IsRunning pins (λ h. h.spcr) (can_recv (spi_link pins 2) 8 link).1
can_init-IsRunning_example =
    can_init-IsRunning pins 2 (λ h. h.spcr) pins-IsMaster 0xCA003074 0xFF0000FC 0xCB001074 2 8
      two_of_eight reset_can (omega arith) (omega arith) (λ e. cc) (inl refl)
