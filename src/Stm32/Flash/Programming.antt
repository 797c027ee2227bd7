-- ===== src/Stm32/Flash/Programming.antt =====
-- The three calls with which src/common/main.c commits a page, over src/stm32/flash.c: what they
-- leave in flash.
use cannuccia.Common.{
  ℕ, ◌+◌, ◌*◌, ◌/◌, ◌%◌, ◌^◌, ◌<◌, ◌≡◌, refl, ap, ◌∙◌, true, false, some, List, length, u32,
  word_at, ◌==◌, arith,
}
use cannuccia.Stm32.Can.{clear_bit}
use cannuccia.Stm32.Flash.{Controller, Flash, begin_write, fill, end_write, page_size, reset_cr}
use cannuccia.Stm32.Flash.Hardware.{FlashMemory}
use cannuccia.Stm32.Flash.Waiting.{ReadyIn, program_page}
use cannuccia.Stm32.Flash.Erasing.{waits, begin_lem, unlocked_at, reset_cr_at}
use cannuccia.Stm32.Flash.Filling.{IsFilled, fill_loop-IsFilled}

module _ {B : Type 0} (controller : Controller B) (half : ℕ → B → ℕ) (ar : B → ℕ)
    (laws : FlashMemory controller half ar) (page : ℕ) (aligned : page % page_size ≡ 0)
    (inside : page + page_size < 2 ^ 32) (not_zero : 0 < page) (bytes : List ℕ)
    (whole : length bytes ≡ page_size) where
  -- The page holds the bytes as half-words, every other page is as it was, and no operation is
  -- selected in `CR`.
  pub record IsWritten (before after : B) : Type 0 where
    pub written : (i : ℕ) → i < 512 → half (page + 2 * i) after ≡ word_at bytes i
    pub elsewhere :
        (x : ℕ) → (x / page_size == page / page_size) ≡ false → half x after ≡ half x before
    pub reset : controller.read_cr after ≡ 0

  module _ (fuel : ℕ) (gets_ready : (b : B) → (n : ℕ) × (n < fuel) × ReadyIn controller n b) where
    fill_lem :
        (b : B)
        → controller.read_cr b ≡ 0x01
        → ((i : ℕ) → i < 512 → half (page + 2 * i) b ≡ 0xFFFF)
        → (after : B) × (fill controller fuel 0 page_size bytes
              (record { cur_page_addr = page; hardware = b })
            ≡ some (record { cur_page_addr = page; hardware = after }, page_size))
          × IsFilled controller half ar laws page aligned inside 0 bytes b after
    unfolding fill
    fill_lem b cr free =
        let (filled, loops, done) =
          fill_loop-IsFilled controller half ar laws page aligned inside fuel gets_ready 0 bytes b
            (omega (arith, whole)) cr (λ i p q. free i q) in
        let (after, returns, waited) = waits controller half ar laws fuel gets_ready filled in
        let selected : (page == 0) ≡ false = ground arith in
        let start : u32 (page + 0) ≡ page + 2 * 0 = omega arith in
        rw (selected, start)
          (rw (loops) (
            rw returns (
              after,
              refl,
              record {
                loaded = λ i p q. waited.contents (page + 2 * i) ∙ done.loaded i p q;
                kept = λ x p. waited.contents x ∙ done.kept x p;
                still_programming =
                    waited.strt_reset ∙ (unfold clear_bit in rw (done.still_programming) refl);
              },
            )))

    end_lem :
        (b : B)
        → controller.read_cr b ≡ 0x01
        → (after : B) × (end_write controller fuel (record { cur_page_addr = page; hardware = b })
            ≡ some (record { cur_page_addr = 0; hardware = after }, true))
          × ((x : ℕ) → half x after ≡ half x b)
          × (controller.read_cr after ≡ 0)
    unfolding end_write clear_bit
    end_lem b cr =
        let (ready, returns, waited) = waits controller half ar laws fuel gets_ready b in
        let cr1 : controller.read_cr ready ≡ 0x01 = waited.strt_reset ∙ (rw cr refl) in
        let off : reset_cr controller 0x01 ready ≡ controller.write_cr 0x00 ready =
          reset_cr_at controller half ar laws 0x01 0x01 ready cr1 in
        let selected : (page == 0) ≡ false = ground arith in
        rw (selected, returns)
          (
            controller.write_cr 0x00 ready,
            ap (λ (t : B). some (record { cur_page_addr = 0; hardware = t }, true)) off,
            λ x. laws.half_cr x 0x00 ready refl ∙ waited.contents x,
            laws.cr_write 0x00 ready
                (unlocked_at controller half ar laws fuel gets_ready ready 0x01 cr1 refl),
          )

    -- The results of the three calls, one after another.
    pub three_calls :
        (f : Flash B)
        → controller.read_cr f.hardware ≡ 0
        → (begun : Flash B) × (filled : Flash B) × (after : B) × (begin_write controller fuel page f
            ≡ some (begun, true))
          × (fill controller fuel 0 page_size bytes begun ≡ some (filled, page_size))
          × (end_write controller fuel filled
              ≡ some (record { cur_page_addr = 0; hardware = after }, true))
          × IsWritten f.hardware after
    three_calls f reset =
        let (begun, begins, erased) =
          begin_lem controller half ar laws fuel gets_ready page f reset in
        let (filled, fills, full) =
          fill_lem begun erased.programming (λ i h. ground (arith, erased.erased (page + 2 * i))) in
        let (ended, ends, contents, cr) = end_lem filled full.still_programming in
        (
          record { cur_page_addr = page; hardware = begun },
          record { cur_page_addr = page; hardware = filled },
          ended,
          begins,
          fills,
          ends,
          record {
            written = λ i h. ground (arith, contents (page + 2 * i), full.loaded i);
            elsewhere = λ x h. ground (arith, contents x, full.kept x, erased.erased x);
            reset = cr;
          },
        )

    -- With the flash unlocked and no operation selected, and a hardware that gets ready in time,
    -- the three calls return with success, the page then holds the bytes, and every other page is
    -- as it was. The controller is ready for the next page.
    pub program_page-IsWritten :
        (f : Flash B)
        → controller.read_cr f.hardware ≡ 0
        → (after : B) × (program_page controller fuel page bytes f
            ≡ some (record { cur_page_addr = 0; hardware = after }, true))
          × IsWritten f.hardware after
    unfolding program_page
    program_page-IsWritten f reset =
        let (begun, filled, after, begins, fills, ends, written) = three_calls f reset in
        rw begins (rw fills (rw ends (after, refl, written)))
