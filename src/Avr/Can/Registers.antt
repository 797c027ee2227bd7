-- ===== src/Avr/Can/Registers.antt =====
-- Identifiers in the registers of the controller, and access to its registers (src/avr/can.c).
use cannuccia.Common.{ℕ, bit_and, bit_or, Bool, List, [], ◌∷◌, u8, u32, ◌<<<◌, ◌>>>◌, get_or, ◌==◌}
use cannuccia.Avr.Can.Link.{Spi, M, ◌>>=◌, ◌>>◌, pure, select, deselect, transfer, send_all}

abbrev pub rxfsidl_exide : ℕ
rxfsidl_exide = 0x08

abbrev pub mode_mask : ℕ
mode_mask = 0xE0

-- `mcpPutEID`: the registers xSIDH, xSIDL, xEID8 and xEID0. Each is a `uint8_t`.
unfoldable pub put_eid : ℕ → List ℕ
put_eid id =
    u8 (bit_and id 0x00003FC0 >>> 6)
    ∷ u8 (
        bit_or (u8 (bit_or rxfsidl_exide (bit_and id 0xC0000000 >>> 30)))
          (bit_and id 0x00000038 <<< 2))
    ∷ u8 (bit_and id 0x003FC000 >>> 14)
    ∷ u8 (bit_and id 0x3FC00000 >>> 22)
    ∷ []

-- `mcpGetEID`
unfoldable pub get_eid : List ℕ → ℕ
get_eid regs =
    bit_or
      (bit_or
        (bit_or (bit_or (bit_or 0 (u32 (get_or regs 0 0 <<< 3))) (u32 (get_or regs 1 0 <<< 30)))
          (get_or regs 1 0 >>> 5))
        (u32 (get_or regs 2 0 <<< 14)))
      (u32 (get_or regs 3 0 <<< 22))

module _ {S : Type 0} (spi : Spi S) where
  -- `mcpRead`
  unfoldable pub mcp_read : ℕ → M S ℕ
  mcp_read addr = do
    select spi
    transfer spi 0x03
    transfer spi addr
    reg ← transfer spi 0x00
    deselect spi
    pure reg

  -- `mcpWrite` and `mcpWriteMulti`
  unfoldable pub mcp_write : ℕ → ℕ → M S (Unit {0})
  mcp_write addr value = do
    select spi
    transfer spi 0x02
    transfer spi addr
    transfer spi value
    deselect spi

  unfoldable pub mcp_write_multi : ℕ → List ℕ → M S (Unit {0})
  unfolding send_all
  mcp_write_multi addr values = do
    select spi
    transfer spi 0x02
    transfer spi addr
    send_all spi values
    deselect spi

  -- `mcpModify`
  unfoldable pub mcp_modify : ℕ → ℕ → ℕ → M S (Unit {0})
  mcp_modify addr mask value = do
    select spi
    transfer spi 0x05
    transfer spi addr
    transfer spi mask
    transfer spi value
    deselect spi

  -- `mcpChangeMode`
  unfoldable pub change_mode : ℕ → M S Bool
  unfolding mcp_modify mcp_read
  change_mode new_mode = do
    mcp_modify 0x0F mode_mask new_mode
    reg ← mcp_read 0x0F
    pure (bit_and reg mode_mask == new_mode)

  -- `mcpSetFilter0`
  unfoldable pub set_filter0 : ℕ → ℕ → M S (Unit {0})
  unfolding mcp_write_multi put_eid
  set_filter0 id mask = do mcp_write_multi 0x00 (put_eid id); mcp_write_multi 0x20 (put_eid mask)
