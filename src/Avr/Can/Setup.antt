-- ===== src/Avr/Can/Setup.antt =====
-- `mcpSetup` and `cnCANInit` of src/avr/can.c.
use cannuccia.Common.{ℕ, Bool, false, if◌then◌else◌}
use cannuccia.Avr.Can.Link.{Spi, M, ◌>>=◌, ◌>>◌, pure, select, deselect, transfer}
use cannuccia.Avr.Can.Registers.{mcp_write, set_filter0, change_mode}

abbrev pub mode_normal : ℕ
mode_normal = 0x00

abbrev pub mode_config : ℕ
mode_config = 0x80

module _ {S : Type 0} (spi : Spi S) where
  -- The bit timings and the filter, and back to the normal mode.
  unfoldable pub configured : ℕ → ℕ → M S Bool
  unfolding mcp_write set_filter0 change_mode
  configured id mask = do
    mcp_write spi 0x2A 0x00
    mcp_write spi 0x29 0x91
    mcp_write spi 0x28 0x01
    set_filter0 spi id mask
    change_mode spi mode_normal

  -- `mcpSetup`
  unfoldable pub mcp_setup : ℕ → ℕ → M S Bool
  unfolding change_mode configured
  mcp_setup id mask = do
    select spi
    transfer spi 0xC0
    deselect spi
    λ s. (tt, spi.delay s)
    ok ← change_mode spi mode_config
    if ok then configured id mask else pure false

  -- The second half of `cnCANInit` for a controller that is set up already.
  unfoldable pub refilter : ℕ → ℕ → M S Bool
  unfolding change_mode set_filter0
  refilter id mask = do
    ok ← change_mode spi mode_config
    if ok then (do set_filter0 spi id mask; change_mode spi mode_normal) else pure false

-- The static variable `inited`, and the link to the chip.
pub record Can (S : Type 0) : Type 0 where
  pub inited : Bool
  pub link : S

module _ {S : Type 0} (spi : Spi S) where
  -- `cnCANInit`
  unfoldable pub can_init : ℕ → ℕ → Can S → Can S × Bool
  unfolding mcp_setup refilter
  can_init id mask c =
      let (ok, s) = mcp_setup spi id mask (spi.configure c.link) in
      let (changed, t) = refilter spi id mask c.link in
      if c.inited then (record c { link = t }, changed) else (record { inited = ok; link = s }, ok)
