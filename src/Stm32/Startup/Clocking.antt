-- ===== src/Stm32/Startup/Clocking.antt =====
-- The clock that `enableHSE` of src/stm32/startup.c ends with.
use cannuccia.Common.{
  ℕ, zero, suc, ◌-◌, ◌/◌, ◌%◌, ◌^◌, ◌<◌, ◌≡◌, ◌≢◌, refl, inl, inr, bit_and, false, some, ◌==◌,
  arith, Bool-cases,
}
use cannuccia.Common.Bits.{digit, set_digit}
use cannuccia.Stm32.Startup.{
  Read, Clock, wait_flag, start_crystal, start_pll, select_pll, enable_hse,
}

module _ {T : Type 0} where
  -- The flag is set when the register is read for the `n`th time.
  unfoldable pub SetIn : Read T → ℕ → ℕ → ℕ → T → Type 0
  SetIn read flag zero written t = bit_and (read written t).0 flag ≢ 0
  SetIn read flag (suc n) written t = SetIn read flag n written (read written t).1

  wait_flag_returns :
      (read : Read T) (flag fuel n written : ℕ) (t : T)
      → n < fuel
      → SetIn read flag n written t
      → (after : T) × (wait_flag read flag fuel written t ≡ some after)
  unfolding wait_flag SetIn
  wait_flag_returns read flag zero n written t h set = absurd (omega arith)
  wait_flag_returns read flag (suc fuel) zero written t h set =
      let done : (bit_and (read written t).0 flag == 0) ≡ false = ground arith in
      rw done ((read written t).1, refl)
  wait_flag_returns read flag (suc fuel) (suc n) written t h set =
      elim (Bool-cases (bit_and (read written t).0 flag == 0)) [
        | inl waiting ↦
            rw waiting
              (wait_flag_returns read flag fuel n written (read written t).1 (omega arith) set)
        | inr now ↦ rw now ((read written t).1, refl)
      ]

module _ {T : Type 0} (read_cr read_cfgr : Read T) where
  -- `HSERDY` follows `HSEON` (bit 16), `PLLRDY` follows `PLLON` (bit 24), and `SWS` is 2 or 3 once
  -- bit 1 of `SW` is set, within `fuel` reads.
  pub record GetsReady (fuel : ℕ) : Type 0 where
    pub crystal :
        (cr : ℕ) (t : T) → digit 16 cr ≡ 1 → (n : ℕ) × (n < fuel) × SetIn read_cr 0x00020000 n cr t
    pub pll :
        (cr : ℕ) (t : T) → digit 24 cr ≡ 1 → (n : ℕ) × (n < fuel) × SetIn read_cr 0x02000000 n cr t
    pub switched :
        (cfgr : ℕ) (t : T) → digit 1 cfgr ≡ 1 → (n : ℕ) × (n < fuel) × SetIn read_cfgr 0x8 n cfgr t

-- The crystal and the PLL are on, the PLL is the system clock and multiplies the crystal's 8 MHz by
-- 9, APB1 runs at half of it, and reads of the flash wait two states, with the prefetch on.
pub record IsClocked (c : Clock) : Type 0 where
  pub crystal_on : digit 16 c.cr ≡ 1
  pub pll_on : digit 24 c.cr ≡ 1
  pub system_clock : c.cfgr % 4 ≡ 2
  pub apb1_prescaler : c.cfgr / 2 ^ 8 % 8 ≡ 4
  pub pll_source : c.cfgr / 2 ^ 16 % 4 ≡ 1
  pub pll_factor : c.cfgr / 2 ^ 18 % 16 ≡ 9 - 2
  pub flash_latency : c.acr ≡ 0x12

module _ {T : Type 0} (read_cr read_cfgr : Read T) where
  pub enable_hse-IsClocked :
      (fuel : ℕ) (c : Clock) (t : T)
      → GetsReady read_cr read_cfgr fuel
      → c.cfgr ≡ 0
      → (after : Clock) × (left : T) × (enable_hse read_cr read_cfgr fuel c t ≡ some (after, left))
        × IsClocked after
  unfolding enable_hse start_crystal start_pll select_pll
  enable_hse-IsClocked fuel c t ready h =
      let crystal = start_crystal read_cr read_cfgr c in
      let pll = start_pll read_cr read_cfgr crystal in
      let selected = select_pll read_cr read_cfgr pll in
      let hseon : digit 16 crystal.cr ≡ 1 = set_digit 16 c.cr 0x00010000 (inr refl) in
      let pllon : digit 24 pll.cr ≡ 1 = set_digit 24 crystal.cr 0x01000000 (inr refl) in
      let chosen : selected.cfgr ≡ 0x5D0402 = rw h refl in
      let switch : digit 1 selected.cfgr ≡ 1 = rw chosen refl in
      let r1 = ready.crystal crystal.cr t hseon in
      let (t1, e1) = wait_flag_returns read_cr 0x00020000 fuel r1.0 crystal.cr t r1.1 r1.2 in
      let r2 = ready.pll pll.cr t1 pllon in
      let (t2, e2) = wait_flag_returns read_cr 0x02000000 fuel r2.0 pll.cr t1 r2.1 r2.2 in
      let r3 = ready.switched selected.cfgr t2 switch in
      let (t3, e3) = wait_flag_returns read_cfgr 0x8 fuel r3.0 selected.cfgr t2 r3.1 r3.2 in
      let returns : enable_hse read_cr read_cfgr fuel c t ≡ some (selected, t3) =
        rw (e1, e2, e3) refl in
      (
        selected,
        t3,
        returns,
        record {
          crystal_on = set_digit 16 crystal.cr 0x01000000 (inl hseon);
          pll_on = pllon;
          system_clock = rw chosen refl;
          apb1_prescaler = rw chosen refl;
          pll_source = rw chosen refl;
          pll_factor = rw chosen refl;
          flash_latency = refl;
        },
      )
