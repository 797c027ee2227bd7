-- ===== src/Avr/Can/Configuring.antt =====
-- What `mcpSetup` of src/avr/can.c leaves in the registers of the controller.
use cannuccia.Common.{ℕ, ◌+◌, ◌<◌, ◌≡◌, bit_and, List, [], ◌∷◌, length, get_or}
use cannuccia.Avr.Can.Link.{Spi}
use cannuccia.Avr.Can.Registers.{put_eid, mcp_write_multi}
use cannuccia.Avr.Can.Setup.{Can}
use cannuccia.Avr.Can.Controller.{IsController}

module _ {S : Type 0} (spi : Spi S) (mode : S → ℕ) (register : ℕ → S → ℕ) (implemented : ℕ → ℕ)
    (laws : IsController spi mode register implemented) where
  -- The registers from `addr` on hold the bits of the values that they have.
  abbrev pub HoldsAll : ℕ → List ℕ → S → Type 0
  HoldsAll addr values s =
      (i : ℕ)
      → i < length values
      → register (addr + i) s ≡ bit_and (get_or values i 0) (implemented (addr + i))

  -- The timings of 1 Mbps at 16 MHz, filter 0 and its mask, and the request for a mode.
  pub record IsConfigured (id mask : ℕ) (s : S) : Type 0 where
    pub cnf1 : HoldsAll 0x2A (0x00 ∷ []) s
    pub cnf2 : HoldsAll 0x29 (0x91 ∷ []) s
    pub cnf3 : HoldsAll 0x28 (0x01 ∷ []) s
    pub filter0 : HoldsAll 0x00 (put_eid id) s
    pub mask0 : HoldsAll 0x20 (put_eid mask) s

  set_timings : S → S
  set_timings s =
      let s1 = (mcp_write_multi spi 0x2A (0x00 ∷ []) s).1 in
      let s2 = (mcp_write_multi spi 0x29 (0x91 ∷ []) s1).1 in
      (mcp_write_multi spi 0x28 (0x01 ∷ []) s2).1

  set_filters : ℕ → ℕ → S → S
  set_filters id mask s =
      (mcp_write_multi spi 0x20 (put_eid mask) (mcp_write_multi spi 0x00 (put_eid id) s).1).1
