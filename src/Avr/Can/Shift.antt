-- ===== src/Avr/Can/Shift.antt =====
-- `spiSelect`, `spiDeselect` and `spiTransfer` of src/avr/can.c, and what `cnCANInit` does to the
-- port and the SPI registers, as the Spi that the rest of the driver uses. The register bits are
-- those of the ATmega328P: SPIF is 7, SPE is 6, MSTR is 4 and SPI2X is 0.
pub mod Keeping
pub mod Returning
use mathlib.Core.Option
use cannuccia.Common.{ℕ, zero, suc, bit_and, bit_or, Option, none, some, ◌==◌, if◌then◌else◌}
use cannuccia.Avr.Can.Link.{Spi}

-- The accesses to the registers; a read of `SPSR` or `SPDR` is a step of the hardware, with the
-- controller at the other end of the wires.
pub record ShiftRegister (H : Type 0) : Type 0 where
  pub read_portb : H → ℕ
  pub write_portb : ℕ → H → H
  pub read_ddrb : H → ℕ
  pub write_ddrb : ℕ → H → H
  pub write_spcr : ℕ → H → H
  pub read_spsr : H → ℕ × H
  pub write_spsr : ℕ → H → H
  pub read_spdr : H → ℕ × H
  pub write_spdr : ℕ → H → H
  pub delay_ms : ℕ → H → H

module _ {H : Type 0} (avr : ShiftRegister H) where
  open avr use {
    read_portb, write_portb, read_ddrb, write_ddrb, write_spcr, read_spsr, write_spsr, read_spdr,
    write_spdr, delay_ms,
  }

  -- `spiSelect` and `spiDeselect`
  unfoldable pub spi_select : H → H
  spi_select h = write_portb (bit_and (read_portb h) 0x7F) h

  unfoldable pub spi_deselect : H → H
  spi_deselect h = write_portb (bit_or (read_portb h) 0x80) h

  -- The loop of `spiTransfer`, on fuel: `none` where it ends before the loop.
  unfoldable pub wait_spif : ℕ → H → Option H
  wait_spif zero h = none
  wait_spif (suc fuel) h =
      let (status, after) = read_spsr h in
      let later = wait_spif fuel after in if bit_and status 0x80 == 0 then later else some after

  unfoldable pub spi_transfer : ℕ → ℕ → H → Option (ℕ × H)
  unfolding wait_spif
  spi_transfer fuel byte h = Option.map read_spdr (wait_spif fuel (write_spdr byte h))

  -- The chip select high, the outputs, SPI as master, and twice its speed.
  unfoldable pub configure_spi : H → H
  configure_spi h =
      let high = write_portb (bit_or (read_portb h) 0x80) h in
      let outputs = write_ddrb (bit_or (read_ddrb high) 0xA8) high in
      let (status, master) = read_spsr (write_spcr 0x50 outputs) in
      write_spsr (bit_or status 0x01) master

  abbrev pub transferred : Option (ℕ × H) → ℕ × Option H
  transferred none = (0, none)
  transferred (some (byte, h)) = (byte, some h)

  abbrev pub exchange_with : ℕ → ℕ → Option H → ℕ × Option H
  unfolding spi_transfer
  exchange_with fuel byte none = (0, none)
  exchange_with fuel byte (some h) = transferred (spi_transfer fuel byte h)

  -- The link; `none` is a call of `spiTransfer` that has not returned, and what is computed behind
  -- it means nothing.
  unfoldable pub spi_link : ℕ → Spi (Option H)
  unfolding spi_select spi_deselect configure_spi
  spi_link fuel = record {
    chip_select = Option.map spi_select;
    chip_deselect = Option.map spi_deselect;
    exchange = exchange_with fuel;
    configure = Option.map configure_spi;
    delay = Option.map (delay_ms 1);
  }
