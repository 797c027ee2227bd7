-- ===== src/Avr/Flash/Filling.antt =====
-- `cnFlashFill` of src/avr/flash.c on a whole page and an erased buffer, word by word.
use cannuccia.Common.{
  ℕ, ◌+◌, ◌-◌, ◌*◌, ◌/◌, ◌%◌, ◌≤◌, ◌<◌, ◌≡◌, refl, ◌∙◌, List, [], ◌∷◌, length, u16, ◌==◌,
  if◌then◌else◌, true, ltb, arith,
}
use cannuccia.Common.{word_at, word_at_next}
use cannuccia.Avr.Flash.{Boot, fill_loop, flash_size, page_size}
use cannuccia.Avr.Flash.Hardware.{SelfProgramming}

module _ {B : Type 0} (boot : Boot B) (byte word : ℕ → B → ℕ)
    (laws : SelfProgramming boot byte word) (page : ℕ) (aligned : page % page_size ≡ 0)
    (inside : page < flash_size) where
  -- The words from `k` up to the end of the page are loaded, and nothing else changes.
  pub record IsLoaded (k : ℕ) (src : List ℕ) (b : B) (r : B × ℕ) : Type 0 where
    pub count : r.1 ≡ page_size
    pub loaded : (i : ℕ) → k ≤ i → i < 64 → word i r.0 ≡ word_at src (i - k)
    pub kept : (i : ℕ) → i < k → word i r.0 ≡ word i b
    pub flash_kept : (x : ℕ) → byte x r.0 ≡ byte x b

  fill_loop_step :
      (k lo hi : ℕ) (src : List ℕ) (b : B)
      → 2 * k < page_size
      → fill_loop boot 0 page_size (2 * k) (page + 2 * k) (lo ∷ hi ∷ src) b
        ≡ fill_loop boot 0 page_size
            (2 * (k + 1))
            (page + 2 * (k + 1))
            src
            (boot.page_fill (page + 2 * k) (lo + hi * 256) b)
  unfolding fill_loop
  fill_loop_step k lo hi src b h =
      let count : u16 (2 * k + 2) ≡ 2 * (k + 1) = omega arith in
      let next : u16 (page + 2 * k + 2) ≡ page + 2 * (k + 1) = omega arith in
      let first : ltb (2 * k) page_size ≡ true = ground arith in
      let second : ltb (u16 (2 * k + 0)) page_size ≡ true = ground arith in
      rw (first, second, count, next)

  -- The word that a round loads.
  round_word :
      (k lo hi i : ℕ) (b : B)
      → 2 * k < page_size
      → word k b ≡ 0xFFFF
      → word i (boot.page_fill (page + 2 * k) (lo + hi * 256) b)
        ≡ (if k == i then lo + hi * 256 else word i b)
  round_word k lo hi i b h clear =
      let place : (page + 2 * k) / 2 % 64 ≡ k = omega arith in
      ground (arith, place, laws.fill_word (page + 2 * k) (lo + hi * 256) i b)

  IsLoaded-step :
      (k lo hi : ℕ) (src : List ℕ) (b : B) (r : B × ℕ)
      → 2 * k < page_size
      → word k b ≡ 0xFFFF
      → IsLoaded (k + 1) src (boot.page_fill (page + 2 * k) (lo + hi * 256) b) r
      → IsLoaded k (lo ∷ hi ∷ src) b r
  IsLoaded-step k lo hi src b r h clear rest = record {
    count = rest.count;
    loaded = λ i p q.
        let one_less : i - (k + 1) ≡ i - k - 1 = omega arith in
        ground (
          arith,
          one_less,
          rest.loaded i,
          rest.kept i,
          round_word k lo hi i b h clear,
          word_at_next (i - k) lo hi src,
        );
    kept = λ i p. ground (arith, rest.kept i, round_word k lo hi i b h clear);
    flash_kept = λ x. rest.flash_kept x ∙ laws.fill_byte (page + 2 * k) (lo + hi * 256) x b;
  }

  pub fill_loop-IsLoaded :
      (k : ℕ) (src : List ℕ) (b : B)
      → 2 * k + length src ≡ page_size
      → ((i : ℕ) → k ≤ i → i < 64 → word i b ≡ 0xFFFF)
      → IsLoaded k src b (fill_loop boot 0 page_size (2 * k) (page + 2 * k) src b)
  fill_loop-IsLoaded k [] b e clear =
      unfold fill_loop in
      record {
        count = omega arith;
        loaded = λ i p q. absurd (omega arith);
        kept = λ i p. refl;
        flash_kept = λ x. refl;
      }
  fill_loop-IsLoaded k (lo ∷ []) b e clear = absurd (omega arith)
  fill_loop-IsLoaded k (lo ∷ hi ∷ src) b e clear =
      let next = boot.page_fill (page + 2 * k) (lo + hi * 256) b in
      let free : word k b ≡ 0xFFFF = clear k (omega arith) (omega arith) in
      let below : 2 * k < page_size = omega arith in
      rw (fill_loop_step k lo hi src b below) (
        IsLoaded-step k lo hi src b
          (fill_loop boot 0 page_size (2 * (k + 1)) (page + 2 * (k + 1)) src next) below free
          (fill_loop-IsLoaded (k + 1) src next (omega arith)
            (λ i p q. ground (arith, round_word k lo hi i b below free, clear i))))
