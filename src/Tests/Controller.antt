-- ===== src/Tests/Controller.antt =====
-- A CAN controller behind SPI that takes the instructions of src/avr/can.c byte by byte, and the
-- theorem on the first `cnCANInit` with it.
use cannuccia.Common.{ℕ, ◌+◌, ◌-◌, bit_and, bit_or, false, ◌==◌, if◌then◌else◌}
use cannuccia.Avr.Can.Link.{Spi}
use cannuccia.Avr.Can.Setup.{Can}

-- The next byte is an instruction, an address, data of an address, a mask, or of no concern.
pub data Phase : Type 0 where
  instruction write_address read_address modify_address ignoring : Phase
  writing reading modify_mask : ℕ → Phase
  modifying : ℕ → ℕ → Phase

pub record Controller : Type 0 where
  pub phase : Phase
  pub registers : ℕ → ℕ

abbrev pub put : ℕ → ℕ → (ℕ → ℕ) → ℕ → ℕ
put addr v registers x = if x == addr then v else registers x

abbrev pub decode : ℕ → Phase
decode b =
    if b == 0x02
    then write_address
    else if b == 0x03
    then read_address
    else if b == 0x05
    then modify_address
    else ignoring

abbrev pub take_byte : Phase → ℕ → (ℕ → ℕ) → ℕ × Controller
take_byte instruction b r =
    (0, record { phase = decode b; registers = if b == 0xC0 then put 0x0F 0x80 r else r })
take_byte write_address b r = (0, record { phase = writing b; registers = r })
take_byte read_address b r = (0, record { phase = reading b; registers = r })
take_byte modify_address b r = (0, record { phase = modify_mask b; registers = r })
take_byte ignoring b r = (0, record { phase = ignoring; registers = r })
take_byte (writing a) b r =
    (0, record { phase = writing (a + 1); registers = put a (bit_and b 0xFF) r })
take_byte (reading a) b r = (r a, record { phase = reading (a + 1); registers = r })
take_byte (modify_mask a) b r = (0, record { phase = modifying a b; registers = r })
take_byte (modifying a mask) b r = (
  0,
  record {
    phase = ignoring;
    registers = put a (bit_or (bit_and b mask) (bit_and (r a) (0xFF - mask))) r;
  },
)

abbrev pub chip : Spi Controller
chip = record {
  chip_select = λ s. record s { phase = instruction };
  chip_deselect = λ s. s;
  exchange = λ b s. take_byte s.phase b s.registers;
  configure = λ s. s;
  delay = λ s. s;
}

abbrev pub mode_of : Controller → ℕ
mode_of s = bit_and (s.registers 0x0F) 0xE0

abbrev pub register_of : ℕ → Controller → ℕ
register_of addr s = s.registers addr

-- All bits of a register are implemented.
abbrev pub whole_bytes : ℕ → ℕ
whole_bytes addr = 0xFF

abbrev fresh_chip : Controller
fresh_chip = record { phase = ignoring; registers = λ a. 0 }

abbrev fresh_can : Can Controller
fresh_can = record { inited = false; link = fresh_chip }
