-- ===== src/Stm32/Flash/Filling.antt =====
-- `cnFlashFill` of src/stm32/flash.c on a whole page that is erased, half-word by half-word.
use cannuccia.Common.{
  ℕ, ◌+◌, ◌-◌, ◌*◌, ◌%◌, ◌^◌, ◌≤◌, ◌<◌, ◌≡◌, refl, ap, ◌∙◌, ◌⊎◌, true, some, List, [], ◌∷◌, length,
  u32, ltb, word_at, word_at_next, ◌==◌, if◌then◌else◌, arith,
}
use cannuccia.Stm32.Can.{clear_bit}
use cannuccia.Stm32.Flash.{Controller, fill_loop, page_size}
use cannuccia.Stm32.Flash.Hardware.{FlashMemory}
use cannuccia.Stm32.Flash.Waiting.{ReadyIn}
use cannuccia.Stm32.Flash.Erasing.{IsWaited, waits}

module _ {B : Type 0} (controller : Controller B) (half : ℕ → B → ℕ) (ar : B → ℕ)
    (laws : FlashMemory controller half ar) (page : ℕ) (aligned : page % page_size ≡ 0)
    (inside : page + page_size < 2 ^ 32) where
  -- The half-words from `k` up to the end of the page are programmed, and nothing else changes.
  pub record IsFilled (k : ℕ) (src : List ℕ) (b after : B) : Type 0 where
    pub loaded : (i : ℕ) → k ≤ i → i < 512 → half (page + 2 * i) after ≡ word_at src (i - k)
    pub kept : (x : ℕ) → (x < page + 2 * k) ⊎ (page + page_size ≤ x) → half x after ≡ half x b
    pub still_programming : controller.read_cr after ≡ 0x01

  -- What one round of the loop leaves.
  round_half :
      (k lo hi x : ℕ) (b ready : B)
      → IsWaited controller half ar laws b ready
      → controller.read_cr b ≡ 0x01
      → half (page + 2 * k) b ≡ 0xFFFF
      → half x (controller.write_half (page + 2 * k) (lo + hi * 256) ready)
        ≡ (if x == page + 2 * k then lo + hi * 256 else half x b)
  round_half k lo hi x b ready waited cr free =
      laws.program_half (page + 2 * k) (lo + hi * 256) x ready
        (waited.strt_reset ∙ (unfold clear_bit in rw cr refl)) waited.idle (omega arith)
        (waited.contents (page + 2 * k) ∙ free)
      ∙ (rw (waited.contents x) refl)

  round_cr :
      (k v : ℕ) (b ready : B)
      → IsWaited controller half ar laws b ready
      → controller.read_cr b ≡ 0x01
      → controller.read_cr (controller.write_half (page + 2 * k) v ready) ≡ 0x01
  round_cr k v b ready waited cr =
      laws.cr_half (page + 2 * k) v ready ∙ (waited.strt_reset ∙ (unfold clear_bit in rw cr refl))

  IsFilled-by_round :
      (k lo hi : ℕ) (src : List ℕ) (b next after : B)
      → k < 512
      → ((x : ℕ) → half x next ≡ (if x == page + 2 * k then lo + hi * 256 else half x b))
      → IsFilled (k + 1) src next after
      → IsFilled k (lo ∷ hi ∷ src) b after
  IsFilled-by_round k lo hi src b next after h round rest = record {
    loaded = λ i p q. ground (
      arith,
      word_at_next (i - k) lo hi src,
      rest.loaded i,
      rest.kept (page + 2 * k),
      round (page + 2 * k),
    );
    kept = λ x p. ground (arith, rest.kept x, round x);
    still_programming = rest.still_programming;
  }

  module _ (fuel : ℕ) (gets_ready : (b : B) → (n : ℕ) × (n < fuel) × ReadyIn controller n b) where
    pub fill_loop-IsFilled :
        (k : ℕ) (src : List ℕ) (b : B)
        → 2 * k + length src ≡ page_size
        → controller.read_cr b ≡ 0x01
        → ((i : ℕ) → k ≤ i → i < 512 → half (page + 2 * i) b ≡ 0xFFFF)
        → (after : B) × (fill_loop controller fuel page_size (2 * k) (page + 2 * k) src b
            ≡ some (after, page_size))
          × IsFilled k src b after
    unfolding fill_loop
    fill_loop-IsFilled k [] b e cr free = (
      b,
      ap (λ (t : ℕ). some (b, t)) (omega arith),
      record { loaded = λ i p q. absurd (omega arith); kept = λ x p. refl; still_programming = cr },
    )
    fill_loop-IsFilled k (lo ∷ []) b e cr free = absurd (omega arith)
    fill_loop-IsFilled k (lo ∷ hi ∷ src) b e cr free =
        let (ready, returns, waited) = waits controller half ar laws fuel gets_ready b in
        let next = controller.write_half (page + 2 * k) (lo + hi * 256) ready in
        let round =
          λ (x : ℕ). round_half k lo hi x b ready waited cr (free k (omega arith) (omega arith)) in
        let room : ltb (2 * k) page_size ≡ true = ground arith in
        let count : u32 (2 * k + 2) ≡ 2 * (k + 1) = omega arith in
        let place : u32 (page + 2 * k + 2) ≡ page + 2 * (k + 1) = omega arith in
        let (after, ends, rest) =
          fill_loop-IsFilled (k + 1) src next (omega arith)
            (round_cr k (lo + hi * 256) b ready waited cr)
            (λ i p q. ground (arith, round (page + 2 * i), free i)) in
        rw (room, returns, count, place)
          (after, ends, IsFilled-by_round k lo hi src b next after (omega arith) round rest)
