-- ===== src/Stm32/Can/Startup/Settings.antt =====
-- The settings of the controller and of its pins that `cnCANInit` of src/stm32/can.c makes.
use cannuccia.Common.{
  ℕ, ◌*◌, ◌/◌, ◌%◌, ◌^◌, ◌≤◌, ◌<◌, ◌≡◌, refl, inr, bit_or, length, get_or, get_or-set, drop,
  drop-set, arith,
}
use cannuccia.Common.Bits.{digit, set_digit}
use cannuccia.Stm32.Can.Startup.Words.{
  set_bit0, clear_bit0, clear_bit-even, clear_bit1, bit_or-IsSet60, bit_or_keeps,
}
use cannuccia.Stm32.Can.{Can, Filter, init_filter, clear_bit}
use cannuccia.Stm32.Can.Startup.{Bus, ReadMsr, request_init, set_up, wake}

abbrev no_filter : Filter
no_filter = record { r1 = 0; r2 = 0 }

-- Filter 0 is active, of 32 bits, in mask mode, assigned to FIFO 0, and holds the identifier and
-- the mask; the other filters, the mailboxes and the status registers are as they were.
pub record IsFiltering (id mask : ℕ) (before after : Can) : Type 0 where
  pub active : after.fa1r % 2 ≡ 1
  pub wide : after.fs1r % 2 ≡ 1
  pub mask_mode : after.fm1r % 2 ≡ 0
  pub first_fifo : after.ffa1r % 2 ≡ 0
  pub content : get_or after.filter 0 no_filter ≡ record { r1 = id; r2 = mask }
  pub others_active : after.fa1r / 2 ≡ before.fa1r / 2
  pub others_wide : after.fs1r / 2 ≡ before.fs1r / 2
  pub others_mode : after.fm1r / 2 ≡ before.fm1r / 2
  pub others_fifo : after.ffa1r / 2 ≡ before.ffa1r / 2
  pub others_content : drop 1 after.filter ≡ drop 1 before.filter
  pub mailboxes : (after.outbox ≡ before.outbox) × (after.inbox0 ≡ before.inbox0)
  pub status : (after.tsr ≡ before.tsr) × (after.rf0r ≡ before.rf0r)

-- The controller has a filter, and its registers have 32 bits.
pub record IsController (bus : Bus) : Type 0 where
  pub some_filter : 0 < length bus.can.filter
  pub mcr_word : bus.mcr < 2 ^ 32
  pub fmr_word : bus.fmr < 2 ^ 32
  pub fa1r_word : bus.can.fa1r < 2 ^ 32
  pub fm1r_word : bus.can.fm1r < 2 ^ 32
  pub ffa1r_word : bus.can.ffa1r < 2 ^ 32

pub init_filter-IsFiltering :
    (id mask : ℕ) (bus : Bus)
    → IsController bus
    → IsFiltering id mask bus.can (init_filter 0 id mask bus.can)
unfolding init_filter
init_filter-IsFiltering id mask bus h =
    let c = bus.can in
    record {
      active = (set_bit0 (clear_bit c.fa1r 0x01)).0;
      wide = (set_bit0 c.fs1r).0;
      mask_mode = clear_bit-even c.fm1r;
      first_fifo = clear_bit-even c.ffa1r;
      content = get_or-set c.filter 0 (record { r1 = id; r2 = mask }) no_filter h.some_filter;
      others_active =
          omega (arith, set_bit0 (clear_bit c.fa1r 0x01), clear_bit0 c.fa1r h.fa1r_word);
      others_wide = (set_bit0 c.fs1r).1;
      others_mode = omega (arith, clear_bit0 c.fm1r h.fm1r_word);
      others_fifo = omega (arith, clear_bit0 c.ffa1r h.ffa1r_word);
      others_content = drop-set 0 1 c.filter (record { r1 = id; r2 = mask }) (omega arith);
      mailboxes = (refl, refl);
      status = (refl, refl);
    }

-- `INRQ` and `SLEEP` are clear, `AWUM` and `ABOM` are set, and the rest of MCR is as it was.
pub record IsAwake (before after : ℕ) : Type 0 where
  pub normal_mode : after % 4 ≡ 0
  pub between : after / 4 % 8 ≡ before / 4 % 8
  pub awum_abom : after / 32 % 4 ≡ 3
  pub above : after / 128 ≡ before / 128

mcr-IsAwake :
    (x : ℕ) → x < 2 ^ 32 → IsAwake x (clear_bit (clear_bit (bit_or (bit_or x 0x01) 0x60) 0x01) 0x02)
mcr-IsAwake x h =
    let asked = bit_or x 0x01 in
    let first = set_bit0 x in
    let set = bit_or asked 0x60 in
    let chosen = bit_or-IsSet60 asked in
    let word : set < 2 ^ 32 = omega (arith, first, chosen.above) in
    let left : clear_bit set 0x01 ≡ set / 2 * 2 = clear_bit0 set word in
    let awake : clear_bit (set / 2 * 2) 0x02 ≡ set / 2 * 2 / 4 * 4 =
      clear_bit1 (set / 2 * 2) (omega arith) (omega arith) in
    rw (left, awake)
      (record {
        normal_mode = omega arith;
        between = omega (arith, first, chosen.below);
        awum_abom = omega (arith, chosen.set);
        above = omega (arith, first, chosen.above);
      })

-- `MCR` when the normal mode is asked for.
pub ready_mcr :
    (x : ℕ) → x < 2 ^ 32 → x / 2 % 2 ≡ 0 → clear_bit (bit_or (bit_or x 0x01) 0x60) 0x01 % 4 ≡ 0
ready_mcr x h clear =
    let asked = bit_or x 0x01 in
    let first = set_bit0 x in
    let chosen = bit_or-IsSet60 asked in
    let word : bit_or asked 0x60 < 2 ^ 32 = omega (arith, first, chosen.above) in
    omega (arith, clear_bit0 (bit_or asked 0x60) word, first, chosen.below)

-- The controller runs in the normal mode with the bit timing of 1 Mbps and its filters in use;
-- AFIO, GPIO port B and CAN1 have their clocks, CAN1 is mapped to PB8 and PB9, and the bits of the
-- pins' modes are set. No other bit of these registers is cleared.
pub record IsNormal (before after : Bus) : Type 0 where
  pub awake : IsAwake before.mcr after.mcr
  pub timing : after.btr ≡ 0x00050008
  pub filters_used : after.fmr % 2 ≡ 0
  pub filter_banks : after.fmr / 2 ≡ before.fmr / 2
  pub can_clock : digit 25 after.apb1enr ≡ 1
  pub port_clock : digit 3 after.apb2enr ≡ 1
  pub afio_clock : digit 0 after.apb2enr ≡ 1
  pub remapped : digit 14 after.mapr ≡ 1
  pub pin_modes :
      (digit 2 after.gpiob_crh ≡ 1) × (digit 4 after.gpiob_crh ≡ 1) × (digit 7 after.gpiob_crh ≡ 1)
  pub clocks_kept :
      (k : ℕ)
      → (digit k before.apb1enr ≤ digit k after.apb1enr)
        × (digit k before.apb2enr ≤ digit k after.apb2enr)
  pub pins_kept :
      (k : ℕ)
      → (digit k before.mapr ≤ digit k after.mapr)
        × (digit k before.gpiob_crh ≤ digit k after.gpiob_crh)

pub started-IsNormal :
    {T : Type 0} (read_msr : ReadMsr T) (id mask : ℕ) (bus : Bus)
    → IsController bus
    → IsNormal bus (wake read_msr (set_up read_msr id mask (request_init read_msr bus)))
unfolding wake set_up request_init
started-IsNormal read_msr id mask bus h =
    let unmasked = bit_or bus.fmr 0x01 in
    let fmr_word : unmasked < 2 ^ 32 = omega (arith, set_bit0 bus.fmr, h.fmr_word) in
    record {
      awake = mcr-IsAwake bus.mcr h.mcr_word;
      timing = refl;
      filters_used = clear_bit-even unmasked;
      filter_banks = omega (arith, clear_bit0 unmasked fmr_word, set_bit0 bus.fmr);
      can_clock = set_digit 25 bus.apb1enr 0x02000000 (inr refl);
      port_clock = set_digit 3 bus.apb2enr 0x09 (inr refl);
      afio_clock = set_digit 0 bus.apb2enr 0x09 (inr refl);
      remapped = set_digit 14 bus.mapr 0x00004000 (inr refl);
      pin_modes = (
        set_digit 2 bus.gpiob_crh 0x94 (inr refl),
        set_digit 4 bus.gpiob_crh 0x94 (inr refl),
        set_digit 7 bus.gpiob_crh 0x94 (inr refl),
      );
      clocks_kept = λ k. (bit_or_keeps k bus.apb1enr 0x02000000, bit_or_keeps k bus.apb2enr 0x09);
      pins_kept = λ k. (bit_or_keeps k bus.mapr 0x00004000, bit_or_keeps k bus.gpiob_crh 0x94);
    }
