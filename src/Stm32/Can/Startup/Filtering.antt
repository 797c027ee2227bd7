-- ===== src/Stm32/Can/Startup/Filtering.antt =====
-- `cnCANInit` of src/stm32/can.c returns, and what it leaves in the registers.
use cannuccia.Common.{ℕ, zero, suc, ◌%◌, ◌<◌, ◌≡◌, Bool, true, false}
use cannuccia.Stm32.Can.Startup.{ReadMsr, acknowledged}

module _ {T : Type 0} (read_msr : ReadMsr T) where
  -- `INAK` has the value `wanted` when `MSR` is read for the `n`th time.
  unfoldable pub AcknowledgesIn : Bool → ℕ → ℕ → T → Type 0
  AcknowledgesIn wanted zero mcr t = acknowledged (read_msr mcr t).0 ≡ wanted
  AcknowledgesIn wanted (suc n) mcr t = AcknowledgesIn wanted n mcr (read_msr mcr t).1

  -- A controller that sets `INAK` while `INRQ` is set and `SLEEP` is clear, and clears it while both
  -- are clear, within `fuel` reads. The reference manual has software clear `SLEEP` as well to
  -- leave the sleep mode, in which the controller is after a reset.
  pub record Follows (fuel : ℕ) : Type 0 where
    pub enters :
        (mcr : ℕ) (t : T) → mcr % 4 ≡ 1 → (n : ℕ) × (n < fuel) × AcknowledgesIn true n mcr t
    pub leaves :
        (mcr : ℕ) (t : T) → mcr % 4 ≡ 0 → (n : ℕ) × (n < fuel) × AcknowledgesIn false n mcr t
