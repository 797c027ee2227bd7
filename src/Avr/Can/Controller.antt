-- ===== src/Avr/Can/Controller.antt =====
-- What the data sheet of the MCP25625 says of the instructions that src/avr/can.c gives it over SPI.
use cannuccia.Common.{ℕ, ◌+◌, ◌%◌, ◌≤◌, ◌<◌, ◌≡◌, ◌⊎◌, bit_and, List, length, get_or}
use cannuccia.Avr.Can.Link.{Spi}
use cannuccia.Avr.Can.Registers.{mcp_read, mcp_write_multi, mcp_modify}

-- `mode` is OPMOD of CANSTAT, 0x80 in the configuration mode, `register` the value of a register,
-- and `implemented` the bits that a register has.
pub record IsController {S : Type 0} (spi : Spi S) (mode : S → ℕ) (register : ℕ → S → ℕ)
    (implemented : ℕ → ℕ) : Type 0 where
  -- RESET, and the time that the oscillator needs.
  pub reset :
      (s : S)
      → mode (spi.delay (spi.chip_deselect (spi.exchange 0xC0 (spi.chip_select s)).1)) ≡ 0x80
  -- WRITE of registers of one row, CANSTAT and CANCTRL at its end left out.
  pub writes :
      (addr : ℕ) (values : List ℕ) (s : S) (i : ℕ)
      → mode s ≡ 0x80
      → addr % 16 + length values ≤ 14
      → i < length values
      → register (addr + i) (mcp_write_multi spi addr values s).1
        ≡ bit_and (get_or values i 0) (implemented (addr + i))
  pub leaves :
      (addr : ℕ) (values : List ℕ) (s : S) (other : ℕ)
      → mode s ≡ 0x80
      → addr % 16 + length values ≤ 14
      → (other < addr) ⊎ (addr + length values ≤ other)
      → register other (mcp_write_multi spi addr values s).1 ≡ register other s
  pub stays :
      (addr : ℕ) (values : List ℕ) (s : S)
      → mode s ≡ 0x80
      → addr % 16 + length values ≤ 14
      → mode (mcp_write_multi spi addr values s).1 ≡ 0x80
  -- BIT MODIFY of CANCTRL, and READ.
  pub request :
      (new_mode : ℕ) (s : S)
      → bit_and new_mode 0xE0 ≡ new_mode
      → bit_and (register 0x0F (mcp_modify spi 0x0F 0xE0 new_mode s).1) 0xE0 ≡ new_mode
  pub request_leaves :
      (new_mode : ℕ) (s : S) (other : ℕ)
      → other % 16 < 14
      → register other (mcp_modify spi 0x0F 0xE0 new_mode s).1 ≡ register other s
  pub request_stays : (s : S) → mode s ≡ 0x80 → mode (mcp_modify spi 0x0F 0xE0 0x80 s).1 ≡ 0x80
  pub reads : (addr : ℕ) (s : S) → (mcp_read spi addr s).0 ≡ register addr s
  pub read_leaves :
      (addr : ℕ) (s : S) (other : ℕ) → register other (mcp_read spi addr s).1 ≡ register other s
  pub read_stays : (addr : ℕ) (s : S) → mode (mcp_read spi addr s).1 ≡ mode s
