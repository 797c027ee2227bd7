-- ===== src/Stm32/Flash/Erasing.antt =====
-- Waiting for the flash controller, and `cnFlashBeginWrite` of src/stm32/flash.c: what they leave.
use cannuccia.Common.{
  ℕ, zero, suc, ◌/◌, ◌<◌, ◌≡◌, refl, ap, ◌∙◌, inl, inr, bit_and, bit_or, true, false, some, ◌==◌,
  if◌then◌else◌, arith, Bool-cases,
}
use cannuccia.Stm32.Can.{clear_bit}
use cannuccia.Stm32.Flash.{
  Controller, Flash, is_locked, wait_for_flash, erase, begin_write, page_size, set_cr, reset_cr,
}
use cannuccia.Stm32.Flash.Hardware.{FlashMemory, is_idle}
use cannuccia.Stm32.Flash.Waiting.{ReadyIn}

module _ {B : Type 0} (controller : Controller B) (half : ℕ → B → ℕ) (ar : B → ℕ)
    (laws : FlashMemory controller half ar) where
  -- A change of some bits of `CR`, where its value is known.
  set_cr_at :
      (bits v : ℕ) (b : B)
      → controller.read_cr b ≡ v
      → set_cr controller bits b ≡ controller.write_cr (bit_or v bits) b
  set_cr_at bits v b e = ap (λ (t : ℕ). controller.write_cr (bit_or t bits) b) e

  pub reset_cr_at :
      (bits v : ℕ) (b : B)
      → controller.read_cr b ≡ v
      → reset_cr controller bits b ≡ controller.write_cr (clear_bit v bits) b
  unfolding reset_cr
  reset_cr_at bits v b e = ap (λ (t : ℕ). controller.write_cr (clear_bit t bits) b) e

  -- What a wait leaves.
  pub record IsWaited (b after : B) : Type 0 where
    pub idle : is_idle controller after ≡ true
    pub contents : (x : ℕ) → half x after ≡ half x b
    pub strt_reset : controller.read_cr after ≡ clear_bit (controller.read_cr b) 0x40

  idle_read : (b : B) → is_idle controller b ≡ true → IsWaited b (controller.read_sr b).1
  idle_read b h = record {
    idle = laws.idle_sr b h;
    contents = λ x. laws.half_sr x b;
    strt_reset = laws.cr_sr_idle b h;
  }

  wait_lem :
      (fuel n : ℕ) (b : B)
      → n < fuel
      → ReadyIn controller n b
      → (after : B) × (wait_for_flash controller fuel b ≡ some after) × IsWaited b after
  unfolding wait_for_flash ReadyIn
  wait_lem zero n b h ready = absurd (omega arith)
  wait_lem (suc fuel) zero b h ready =
      let idle : is_idle controller b ≡ true = ground arith in
      rw idle ((controller.read_sr b).1, refl, idle_read b idle)
  wait_lem (suc fuel) (suc n) b h ready = elim (Bool-cases (is_idle controller b)) [
    | inl now ↦ rw now ((controller.read_sr b).1, refl, idle_read b now)
    | inr busy ↦
        let (after, returns, waited) =
          wait_lem fuel n (controller.read_sr b).1 (omega arith) ready in
        rw busy (
          after,
          returns,
          record {
            idle = waited.idle;
            contents = λ x. waited.contents x ∙ laws.half_sr x b;
            strt_reset =
                waited.strt_reset ∙ ap (λ (v : ℕ). clear_bit v 0x40) (laws.cr_sr_busy b busy);
          },
        )
  ]

  module _ (fuel : ℕ) (gets_ready : (b : B) → (n : ℕ) × (n < fuel) × ReadyIn controller n b) where
    pub waits :
        (b : B) → (after : B) × (wait_for_flash controller fuel b ≡ some after) × IsWaited b after
    waits b = let (n, h, ready) = gets_ready b in wait_lem fuel n b h ready

    -- What `cnFlashBeginWrite` leaves: `PG` is set, and the page is erased.
    pub record IsBegun (addr : ℕ) (b after : B) : Type 0 where
      pub programming : controller.read_cr after ≡ 0x01
      pub erased :
          (x : ℕ) → half x after ≡ (if x / page_size == addr / page_size then 0xFFFF else half x b)

    pub unlocked_at :
        (b : B) (v : ℕ)
        → controller.read_cr b ≡ v
        → bit_and v 0x80 ≡ 0
        → is_locked controller b ≡ false
    unlocked_at b v e h = rw e (rw h refl)

    -- The page is erased, and `PER` still set.
    record IsErased (addr : ℕ) (b after : B) : Type 0 where
      per : controller.read_cr after ≡ 0x02
      erased :
          (x : ℕ) → half x after ≡ (if x / page_size == addr / page_size then 0xFFFF else half x b)

    erase_lem :
        (addr : ℕ) (b : B)
        → controller.read_cr b ≡ 0
        → (after : B) × (erase controller fuel addr b ≡ some after) × IsErased addr b after
    unfolding erase clear_bit
    erase_lem addr b reset =
        let (ready, waited, first) = waits b in
        let cr1 : controller.read_cr ready ≡ 0 = first.strt_reset ∙ (rw reset refl) in
        let b2 = controller.write_cr 0x02 ready in
        let cr2 : controller.read_cr b2 ≡ 0x02 =
          laws.cr_write 0x02 ready (unlocked_at ready 0 cr1 refl) in
        let b3 = controller.write_ar addr b2 in
        let cr3 : controller.read_cr b3 ≡ 0x02 = laws.cr_ar addr b2 ∙ cr2 in
        let idle3 : is_idle controller b3 ≡ true =
          laws.idle_ar addr b2 (laws.idle_cr 0x02 ready refl first.idle) in
        let b4 = controller.write_cr 0x42 b3 in
        let cr4 : controller.read_cr b4 ≡ 0x42 =
          laws.cr_write 0x42 b3 (unlocked_at b3 0x02 cr3 refl) in
        let (after, waited_again, second) = waits b4 in
        let e2 : set_cr controller 0x02 ready ≡ b2 = set_cr_at 0x02 0 ready cr1 in
        let e4 : set_cr controller 0x40 b3 ≡ b4 = set_cr_at 0x40 0x02 b3 cr3 in
        let ar3 : ar b3 ≡ addr = laws.ar_write addr b2 (unlocked_at b2 0x02 cr2 refl) in
        let kept : (x : ℕ) → half x b3 ≡ half x b =
          λ x. laws.half_ar x addr b2 ∙ (laws.half_cr x 0x02 ready refl ∙ first.contents x) in
        let returns : wait_for_flash controller fuel
              (set_cr controller 0x40 (controller.write_ar addr (set_cr controller 0x02 ready)))
            ≡ some after =
          ap
            (λ (t : B).
              wait_for_flash controller fuel (set_cr controller 0x40 (controller.write_ar addr t)))
            e2
          ∙ (ap (wait_for_flash controller fuel) e4 ∙ waited_again) in
        rw waited (
          after,
          returns,
          record {
            per = second.strt_reset ∙ (rw cr4 refl);
            erased = λ x.
                second.contents x
                ∙ (laws.erase_half x b3 (unlocked_at b3 0x02 cr3 refl) idle3
                    ∙ (rw (ar3, kept x) refl));
          },
        )

    pub begin_lem :
        (addr : ℕ) (f : Flash B)
        → controller.read_cr f.hardware ≡ 0
        → (b : B) × (begin_write controller fuel addr f
            ≡ some (record { cur_page_addr = addr; hardware = b }, true))
          × IsBegun addr f.hardware b
    unfolding begin_write reset_cr clear_bit
    begin_lem addr f reset =
        let (erased, returns, page) = erase_lem addr f.hardware reset in
        let b2 = controller.write_cr 0x00 erased in
        let cr2 : controller.read_cr b2 ≡ 0x00 =
          laws.cr_write 0x00 erased (unlocked_at erased 0x02 page.per refl) in
        let b3 = controller.write_cr 0x01 b2 in
        let free : is_locked controller f.hardware ≡ false = unlocked_at f.hardware 0 reset refl in
        let e2 : reset_cr controller 0x02 erased ≡ b2 = reset_cr_at 0x02 0x02 erased page.per in
        let e3 : set_cr controller 0x01 (reset_cr controller 0x02 erased) ≡ b3 =
          ap (set_cr controller 0x01) e2 ∙ set_cr_at 0x01 0 b2 cr2 in
        rw (free, returns)
          (
            b3,
            ap (λ (t : B). some (record { cur_page_addr = addr; hardware = t }, true)) e3,
            record {
              programming = laws.cr_write 0x01 b2 (unlocked_at b2 0 cr2 refl);
              erased = λ x.
                  laws.half_cr x 0x01 b2 refl ∙ (laws.half_cr x 0x00 erased refl ∙ page.erased x);
            },
          )
