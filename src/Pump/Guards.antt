-- ===== src/Pump/Guards.antt =====
-- Which calls of the flash driver the pump of src/common/main.c can make, and when.
pub mod Calls
pub mod Strays
use cannuccia.Common.{ℕ, ◌≡◌, true, List, inl, inr}
use cannuccia.Port.{Port}
use cannuccia.Pump.Handlers.{Pump}
use cannuccia.Pump.{Event, run}
use cannuccia.Pump.Invariant.{IsValid, GivesBytes}
use Calls.{IsKept, Writeable}
use Strays.{run_kept_or_Strays}

module _ {D : Type 0} (port : Port D) where
  -- Over every run from a valid page, with a bus that gives bytes, the flash driver is asked to
  -- begin a page only at address 0 or at an address that `cnFlashPageWriteable` accepts, and to
  -- fill whole pages only: a property of the hardware that those calls and the others of the
  -- loop keep, as `IsKept` lists them, holds at the end.
  pub run-IsKept :
      (P : D → Type 0)
      → IsKept port (Writeable port) P
      → (dev_id : ℕ) → GivesBytes port
      → (es : List Event) (s : Pump D) → IsValid port s.sel_page
      → P s.device
      → P (run port dev_id es s).device
  run-IsKept P kept dev_id gives_bytes es s v p =
      elim (run_kept_or_Strays port dev_id port.page_writeable P kept gives_bytes es s v v.selected
        p) [ inl holds ↦ holds | inr (a, m, ok, bad) ↦ cc ]
