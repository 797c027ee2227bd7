-- ===== src/Stm32/Can/Startup.antt =====
-- `cnCANInit` of src/stm32/can.c.
pub mod Words
pub mod Settings
pub mod Filtering
use cannuccia.Common.{
  ℕ, zero, suc, ◌+◌, ◌-◌, ◌*◌, ◌/◌, ◌^◌, bit_and, bit_or, Bool, true, false, Option, none, some,
  ◌==◌, if◌then◌else◌,
}
use cannuccia.Stm32.Can.{Can, init_filter, clear_bit}

-- `busInited`, and the registers that only the start-up uses.
pub record Bus : Type 0 where
  pub bus_inited : Bool
  pub mcr : ℕ
  pub btr : ℕ
  pub fmr : ℕ
  pub apb1enr : ℕ
  pub apb2enr : ℕ
  pub mapr : ℕ
  pub gpiob_crh : ℕ
  pub can : Can

-- Reads of `MSR`, which the controller sets, given what `MCR` asks it for. `T` is the controller's
-- hidden state; a read is a step of it.
abbrev pub ReadMsr : Type 0 → Type 0
ReadMsr T = ℕ → T → ℕ × T

-- `MSR & CAN_MSR_INAK`
abbrev pub acknowledged : ℕ → Bool
acknowledged msr = if bit_and msr 0x01 == 0 then false else true

abbrev pub same : Bool → Bool → Bool
same true b = b
same false true = false
same false false = true

module _ {T : Type 0} (read_msr : ReadMsr T) where
  -- The loops that wait until `INAK` is set, or until it is clear, on fuel: `none` where the fuel
  -- ends before.
  unfoldable pub wait_inak : Bool → ℕ → ℕ → T → Option T
  wait_inak wanted zero mcr t = none
  wait_inak wanted (suc fuel) mcr t =
      let (msr, after) = read_msr mcr t in
      let later = wait_inak wanted fuel mcr after in
      if same wanted (acknowledged msr) then some after else later

  -- The pins and the clocks, and the request for the initialisation mode.
  unfoldable pub request_init : Bus → Bus
  request_init bus = record bus {
    apb2enr = bit_or bus.apb2enr 0x09;
    mapr = bit_or bus.mapr 0x00004000;
    gpiob_crh = bit_or bus.gpiob_crh 0x94;
    apb1enr = bit_or bus.apb1enr 0x02000000;
    mcr = bit_or bus.mcr 0x01;
  }

  -- What is set in the initialisation mode, and the request for the normal mode.
  unfoldable pub set_up : ℕ → ℕ → Bus → Bus
  unfolding init_filter clear_bit
  set_up id mask bus = record bus {
    fmr = clear_bit (bit_or bus.fmr 0x01) 0x01;
    can = init_filter 0 id mask bus.can;
    mcr = clear_bit (bit_or bus.mcr 0x60) 0x01;
    btr = 0x00050008;
  }

  unfoldable pub wake : Bus → Bus
  unfolding clear_bit
  wake bus = record bus { mcr = clear_bit bus.mcr 0x02; bus_inited = true }

  unfoldable pub after_wait : Bus → (Bus → T → Option (Bus × T)) → Option T → Option (Bus × T)
  after_wait bus next none = none
  after_wait bus next (some t) = next bus t

  -- `cnCANInit`, which returns 1.
  unfoldable pub can_init : ℕ → ℕ → ℕ → Bus → T → Option (Bus × T)
  unfolding wait_inak request_init set_up wake after_wait init_filter
  can_init fuel id mask bus t =
      let asked = request_init bus in
      let ready = set_up id mask asked in
      if bus.bus_inited
      then some (record bus { can = init_filter 0 id mask bus.can }, t)
      else after_wait asked
          (λ b entered.
            after_wait ready (λ c left. some (wake c, left))
              (wait_inak false fuel ready.mcr entered))
          (wait_inak true fuel asked.mcr t)
