-- ===== src/Stm32/Flash/Waiting.antt =====
-- The waits of src/stm32/flash.c, and the programming of a page over them.
use cannuccia.Common.{
  ℕ, zero, suc, ◌+◌, ◌*◌, ◌<◌, ◌≡◌, refl, ap, inl, inr, bit_and, Bool, true, false, Option, none,
  some, List, [], ◌∷◌, length, u32, ltb, ◌==◌, arith, Bool-cases,
}
use cannuccia.Stm32.Flash.{
  Controller, Flash, is_locked, wait_for_flash, erase, begin_write, fill_loop, fill, end_write,
  page_size, set_cr, reset_cr,
}

module _ {B : Type 0} (controller : Controller B) where
  -- `SR` is not busy when it is read for the `n`th time.
  unfoldable pub ReadyIn : ℕ → B → Type 0
  ReadyIn zero b = bit_and (controller.read_sr b).0 0x01 ≡ 0
  ReadyIn (suc n) b = ReadyIn n (controller.read_sr b).1

  wait_for_flash_lem :
      (fuel n : ℕ) (b : B)
      → n < fuel
      → ReadyIn n b
      → (after : B) × (wait_for_flash controller fuel b ≡ some after)
  unfolding wait_for_flash ReadyIn
  wait_for_flash_lem zero n b h ready = absurd (omega arith)
  wait_for_flash_lem (suc fuel) zero b h ready =
      let idle : (bit_and (controller.read_sr b).0 0x01 == 0) ≡ true = ground arith in
      rw idle ((controller.read_sr b).1, refl)
  wait_for_flash_lem (suc fuel) (suc n) b h ready =
      elim (Bool-cases (bit_and (controller.read_sr b).0 0x01 == 0)) [
        | inl now ↦ rw now ((controller.read_sr b).1, refl)
        | inr busy ↦
            rw busy (wait_for_flash_lem fuel n (controller.read_sr b).1 (omega arith) ready)
      ]

  -- What COMMIT_WRITES of main.c does with these calls, and the result of the last.
  unfoldable pub program_page : ℕ → ℕ → List ℕ → Flash B → Option (Flash B × Bool)
  unfolding begin_write
  program_page fuel addr bytes f = filled (begin_write controller fuel addr f)
    where
      ended : Option (Flash B × ℕ) → Option (Flash B × Bool)
      ended none = none
      ended (some (g, written)) = end_write controller fuel g

      filled : Option (Flash B × Bool) → Option (Flash B × Bool)
      filled none = none
      filled (some (g, false)) = some (g, false)
      filled (some (g, true)) = ended (fill controller fuel 0 page_size bytes g)

  module _ (fuel : ℕ) (gets_ready : (b : B) → (n : ℕ) × (n < fuel) × ReadyIn n b) where
    waits : (b : B) → (after : B) × (wait_for_flash controller fuel b ≡ some after)
    waits b = let (n, h, ready) = gets_ready b in wait_for_flash_lem fuel n b h ready

    fill_loop_returns :
        (k w dest : ℕ) (bytes : List ℕ) (b : B)
        → w + 2 * k ≡ page_size
        → length bytes ≡ 2 * k
        → (after : B) × (fill_loop controller fuel page_size w dest bytes b
            ≡ some (after, page_size))
    unfolding fill_loop
    fill_loop_returns zero w dest [] b e l = (b, ap (λ (t : ℕ). some (b, t)) (omega arith))
    fill_loop_returns zero w dest (lo ∷ bytes) b e l = absurd (omega arith)
    fill_loop_returns (suc k) w dest [] b e l = absurd (omega arith)
    fill_loop_returns (suc k) w dest (lo ∷ []) b e l = absurd (omega arith)
    fill_loop_returns (suc k) w dest (lo ∷ hi ∷ bytes) b e l =
        let (ready, waited) = waits b in
        let room : ltb w page_size ≡ true = ground arith in
        rw (room, waited)
          (fill_loop_returns k (u32 (w + 2)) (u32 (dest + 2)) bytes
            (controller.write_half dest (lo + hi * 256) ready) (omega arith) (omega arith))

    fill_returns :
        (bytes : List ℕ) (f : Flash B)
        → (f.cur_page_addr == 0) ≡ false
        → length bytes ≡ page_size
        → (b : B) × (fill controller fuel 0 page_size bytes f
            ≡ some (record f { hardware = b }, page_size))
    unfolding fill
    fill_returns bytes f selected whole =
        let (written, loaded) =
          fill_loop_returns 512 0 (u32 (f.cur_page_addr + 0)) bytes f.hardware (omega arith)
            (omega (arith, whole)) in
        let (ready, waited) = waits written in rw (selected, loaded) (rw waited (ready, refl))

    end_write_returns :
        (f : Flash B)
        → (f.cur_page_addr == 0) ≡ false
        → (b : B) × (end_write controller fuel f
            ≡ some (record { cur_page_addr = 0; hardware = b }, true))
    unfolding end_write
    end_write_returns f selected =
        let (ready, waited) = waits f.hardware in
        rw (selected, waited) (reset_cr controller 0x01 ready, refl)

    begin_write_returns :
        (addr : ℕ) (f : Flash B)
        → is_locked controller f.hardware ≡ false
        → (b : B) × (begin_write controller fuel addr f
            ≡ some (record { cur_page_addr = addr; hardware = b }, true))
    unfolding begin_write erase
    begin_write_returns addr f unlocked =
        let (ready, waited) = waits f.hardware in
        let (erased, waited_again) =
          waits
            (set_cr controller 0x40 (controller.write_ar addr (set_cr controller 0x02 ready))) in
        rw (unlocked, waited)
          (rw waited_again (set_cr controller 0x01 (reset_cr controller 0x02 erased), refl))

    -- With the flash unlocked and a hardware that gets ready in time, programming a page other than
    -- one at address 0 returns, with success, and no page is being programmed any more.
    pub program_page_returns :
        (addr : ℕ) (bytes : List ℕ) (f : Flash B)
        → is_locked controller f.hardware ≡ false
        → (addr == 0) ≡ false
        → length bytes ≡ page_size
        → (b : B) × (program_page fuel addr bytes f
            ≡ some (record { cur_page_addr = 0; hardware = b }, true))
    unfolding program_page
    program_page_returns addr bytes f unlocked selected whole =
        let (begun, begins) = begin_write_returns addr f unlocked in
        let (written, fills) =
          fill_returns bytes (record { cur_page_addr = addr; hardware = begun }) selected whole in
        let (finished, ends) =
          end_write_returns (record { cur_page_addr = addr; hardware = written }) selected in
        rw begins (rw fills (rw ends (finished, refl)))
