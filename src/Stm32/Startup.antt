-- ===== src/Stm32/Startup.antt =====
-- src/stm32/startup.c. `_data_start` and its fellows, which the linker script sets, are the fields of
-- a Layout; `char *` has 32 bits, which no region reaches the end of.
pub mod Loading
pub mod Clocking
pub mod Reset
pub mod Vectors
use cannuccia.Common.{
  ℕ, zero, suc, ◌+◌, bit_and, bit_or, Bool, true, false, Option, none, some, List, [], ◌∷◌, ◌++◌,
  ltb, ◌==◌, if◌then◌else◌,
}

infixl 5 ◌>>=◌
abbrev pub ◌>>=◌ {ℓ κ} : {A : Type ℓ} {B : Type κ} → Option A → (A → Option B) → Option B
none >>= f = none
some a >>= f = f a

-- The bytes at the addresses.
abbrev pub Memory : Type 0
Memory = ℕ → ℕ

-- `*a = v`
abbrev pub store : ℕ → ℕ → Memory → Memory
store a v m x = if x == a then v else m x

-- The loops of `resetHandler`, on fuel: `none` where the fuel ends before the loop.
unfoldable pub copy_loop : ℕ → ℕ → ℕ → ℕ → Memory → Option Memory
copy_loop zero src dst end m = none
copy_loop (suc fuel) src dst end m =
    let rest = copy_loop fuel (src + 1) (dst + 1) end (store dst (m src) m) in
    if ltb dst end then rest else some m

unfoldable pub zero_loop : ℕ → ℕ → ℕ → Memory → Option Memory
zero_loop zero dst end m = none
zero_loop (suc fuel) dst end m =
    let rest = zero_loop fuel (dst + 1) end (store dst 0 m) in if ltb dst end then rest else some m

-- What is written to `RCC_CR`, `RCC_CFGR` and `FLASH_ACR`.
pub record Clock : Type 0 where
  pub cr : ℕ
  pub cfgr : ℕ
  pub acr : ℕ

-- A read of a register of which the hardware sets bits, given what is written to it. `T` is the
-- hardware's hidden state; a read is a step of it.
abbrev pub Read : Type 0 → Type 0
Read T = ℕ → T → ℕ × T

module _ {T : Type 0} where
  -- `while(!(register & flag)) { }`, on fuel.
  unfoldable pub wait_flag : Read T → ℕ → ℕ → ℕ → T → Option T
  wait_flag read flag zero written t = none
  wait_flag read flag (suc fuel) written t =
      let (value, after) = read written t in
      let later = wait_flag read flag fuel written after in
      if bit_and value flag == 0 then later else some after

module _ {T : Type 0} (read_cr read_cfgr : Read T) where
  -- `enableHSE` up to its first loop, between the first and the second, and from there to the last.
  unfoldable pub start_crystal : Clock → Clock
  start_crystal c = record c { cr = bit_or c.cr 0x00010000 }

  unfoldable pub start_pll : Clock → Clock
  start_pll c = record c {
    acr = bit_or 0x00000010 0x2;
    cfgr = bit_or c.cfgr 0x5D0400;
    cr = bit_or c.cr 0x01000000;
  }

  unfoldable pub select_pll : Clock → Clock
  select_pll c = record c { cfgr = bit_or c.cfgr 0x2 }

  unfoldable pub enable_hse : ℕ → Clock → T → Option (Clock × T)
  unfolding wait_flag start_crystal start_pll select_pll
  enable_hse fuel c t = do
    let crystal = start_crystal c
    t1 ← wait_flag read_cr 0x00020000 fuel crystal.cr t
    let pll = start_pll crystal
    t2 ← wait_flag read_cr 0x02000000 fuel pll.cr t1
    let selected = select_pll pll
    t3 ← wait_flag read_cfgr 0x8 fuel selected.cfgr t2
    some (selected, t3)

-- The symbols of the linker script.
pub record Layout : Type 0 where
  pub data_start : ℕ
  pub data_end : ℕ
  pub data_load_addr : ℕ
  pub bss_start : ℕ
  pub bss_end : ℕ

module _ {T : Type 0} (read_cr read_cfgr : Read T) where
  -- `resetHandler` up to its call of `main`, which does not return.
  unfoldable pub reset_handler : Layout → ℕ → Memory → Clock → T → Option (Memory × Clock × T)
  unfolding copy_loop zero_loop enable_hse
  reset_handler l fuel m c t = do
    copied ← copy_loop fuel l.data_load_addr l.data_start l.data_end m
    zeroed ← zero_loop fuel l.bss_start l.bss_end copied
    (clock, left) ← enable_hse read_cr read_cfgr fuel c t
    some (zeroed, clock, left)

-- What stands in the vector table.
pub data Isr : Type 0 where
  address : ℕ → Isr
  reset_handler_isr : Isr
  hcf : Isr
  tim2_handler : Isr

-- `isrs`
unfoldable pub isrs : List Isr
isrs = address 0x20005000 ∷ reset_handler_isr ∷ arm_vectors ++ stm32_vectors
  where
    arm_vectors : List Isr
    arm_vectors =
        hcf ∷ hcf ∷ hcf ∷ hcf ∷ hcf ∷ hcf ∷ hcf ∷ hcf ∷ hcf ∷ hcf ∷ hcf ∷ hcf ∷ hcf ∷ hcf ∷ []

    -- From WWDG, from EXTI0, from USB_HP_CAN_TX, from TIM2, from SPI1, from TIM8_BRK, from TIM6.
    stm32_vectors : List Isr
    stm32_vectors =
        (hcf ∷ hcf ∷ hcf ∷ hcf ∷ hcf ∷ hcf ∷ [])
        ++ (hcf ∷ hcf ∷ hcf ∷ hcf ∷ hcf ∷ hcf ∷ hcf ∷ hcf ∷ hcf ∷ hcf ∷ hcf ∷ hcf ∷ hcf ∷ [])
        ++ (hcf ∷ hcf ∷ hcf ∷ hcf ∷ hcf ∷ hcf ∷ hcf ∷ hcf ∷ hcf ∷ [])
        ++ (tim2_handler ∷ hcf ∷ hcf ∷ hcf ∷ hcf ∷ hcf ∷ hcf ∷ [])
        ++ (hcf ∷ hcf ∷ hcf ∷ hcf ∷ hcf ∷ hcf ∷ hcf ∷ hcf ∷ [])
        ++ (hcf ∷ hcf ∷ hcf ∷ hcf ∷ hcf ∷ hcf ∷ hcf ∷ hcf ∷ hcf ∷ hcf ∷ hcf ∷ [])
        ++ (hcf ∷ hcf ∷ hcf ∷ hcf ∷ hcf ∷ hcf ∷ hcf ∷ hcf ∷ hcf ∷ hcf ∷ hcf ∷ hcf ∷ hcf ∷ hcf ∷ [])
