-- ===== src/Avr/Flash/Commit.antt =====
-- The three calls with which src/common/main.c commits a page, over src/avr/flash.c.
use cannuccia.Common.{
  ℕ, ◌+◌, ◌*◌, ◌/◌, ◌%◌, ◌<◌, ◌≡◌, refl, ◌∙◌, Bool, true, false, List, length, get_or, IsBytes,
  IsBytes-get_or, u16, ◌==◌, if◌then◌else◌, arith,
}
use cannuccia.Common.Bits.{bit_and_low}
use cannuccia.Common.{word_at_parts}
use cannuccia.Avr.Flash.{
  Boot, Flash, begin_write, fill, fill_loop, end_write, program, flash_size, page_size,
}
use cannuccia.Avr.Flash.Hardware.{SelfProgramming}
use cannuccia.Avr.Flash.Filling.{IsLoaded, fill_loop-IsLoaded}

module _ {B : Type 0} (boot : Boot B) where
  -- The calls of COMMIT_WRITES, one after the other, and the result of the last.
  unfoldable pub commit : ℕ → List ℕ → Flash B → Flash B × Bool
  commit addr bytes f = end_write boot (fill boot 0 page_size bytes (begin_write boot addr f).0).0

  -- A commit to the page at address 0 reports a failure and leaves the hardware alone: flash.c
  -- takes the address 0 for "no page".
  pub commit_page_zero :
      (bytes : List ℕ) (f : Flash B)
      → ((commit 0 bytes f).1 ≡ false) × ((commit 0 bytes f).0.hardware ≡ f.hardware)
  unfolding commit begin_write fill end_write
  commit_page_zero bytes f = (refl, refl)

  -- A locked flash is not programmed.
  pub commit_locked :
      (addr : ℕ) (bytes : List ℕ) (f : Flash B)
      → f.flash_locked ≡ true
      → (commit addr bytes f).1 ≡ false
  unfolding commit begin_write fill end_write
  commit_locked addr bytes f h = ground arith

half_index :
    (x : ℕ)
    → (x % 2 ≡ 0 → 2 * (x / 2 % 64) ≡ x % page_size)
      × (x % 2 ≡ 1 → 2 * (x / 2 % 64) + 1 ≡ x % page_size)
half_index x = (λ h. omega arith, λ h. omega arith)

module _ {B : Type 0} (boot : Boot B) (byte word : ℕ → B → ℕ)
    (laws : SelfProgramming boot byte word) (page : ℕ) (aligned : page % page_size ≡ 0)
    (inside : page < flash_size) (not_zero : 0 < page) (bytes : List ℕ)
    (whole : length bytes ≡ page_size) (are_bytes : IsBytes bytes) where
  -- The page holds the bytes, and the rest of flash is as it was.
  pub record IsProgrammed (before after : B) : Type 0 where
    pub written :
        (x : ℕ)
        → x < flash_size
        → x / page_size ≡ page / page_size
        → byte x after ≡ get_or bytes (x % page_size) 0
    pub elsewhere :
        (x : ℕ)
        → x < flash_size
        → (x / page_size == page / page_size) ≡ false
        → byte x after ≡ byte x before
    pub erased : (i : ℕ) → i < 64 → word i after ≡ 0xFFFF

  -- What erasing and writing the page make of a byte.
  byte-program :
      (x : ℕ) (b : B)
      → x < flash_size
      → byte x (program boot page b) ≡ (
          if x / page_size == page / page_size
          then (if x % 2 == 0 then word (x / 2 % 64) b % 256 else word (x / 2 % 64) b / 256 % 256)
          else byte x b)
  unfolding program
  byte-program x b h = ground (
    arith,
    bit_and_low 8 (word (x / 2 % 64) b % 256),
    bit_and_low 8 (word (x / 2 % 64) b / 256),
    laws.status_byte (boot.status b) x (boot.page_write page (boot.page_erase page (boot.cli b))),
    laws.write_even page x (boot.page_erase page (boot.cli b)),
    laws.write_odd page x (boot.page_erase page (boot.cli b)),
    laws.erase_byte page x (boot.cli b),
    laws.erase_word page (x / 2 % 64) (boot.cli b),
    laws.cli_byte x b,
    laws.cli_word (x / 2 % 64) b,
  )

  word-program : (i : ℕ) (b : B) → word i (program boot page b) ≡ 0xFFFF
  unfolding program
  word-program i b =
      laws.status_word (boot.status b) i (boot.page_write page (boot.page_erase page (boot.cli b)))
      ∙ laws.write_word page i (boot.page_erase page (boot.cli b))

  -- The buffer after the fill.
  abbrev loaded : Flash B → B × ℕ
  loaded f = fill_loop boot 0 page_size (2 * 0) (page + 2 * 0) bytes f.hardware

  commit_lem :
      (f : Flash B)
      → f.flash_locked ≡ false
      → commit boot page bytes f
        ≡ (record f { cur_page_addr = 0; hardware = program boot page (loaded f).0 }, true)
  unfolding commit begin_write fill end_write
  commit_lem f unlocked =
      let selected : (page == 0) ≡ false = ground arith in
      let start : u16 (page + 0) ≡ page + 2 * 0 = omega arith in
      rw (start, selected) (rw (selected, unlocked))

  loaded-IsLoaded :
      (f : Flash B)
      → ((i : ℕ) → i < 64 → word i f.hardware ≡ 0xFFFF)
      → IsLoaded boot byte word laws page aligned inside 0 bytes f.hardware (loaded f)
  loaded-IsLoaded f clear =
      fill_loop-IsLoaded boot byte word laws page aligned inside 0 bytes f.hardware (omega arith)
        (λ i p. clear i)

  programmed :
      (f : Flash B)
      → ((i : ℕ) → i < 64 → word i f.hardware ≡ 0xFFFF)
      → IsProgrammed f.hardware (program boot page (loaded f).0)
  programmed f clear =
      let full = loaded-IsLoaded f clear in
      record {
        written = λ x h same. ground (
          arith,
          byte-program x (loaded f).0 h,
          full.loaded (x / 2 % 64),
          word_at_parts bytes (x / 2 % 64) are_bytes (omega arith),
          half_index x,
          IsBytes-get_or bytes (x % page_size) are_bytes,
        );
        elsewhere = λ x h other. ground (arith, byte-program x (loaded f).0 h, full.flash_kept x);
        erased = λ i h. word-program i (loaded f).0;
      }

  -- With the buffer erased and the flash unlocked, a commit to a page other than the one at
  -- address 0 succeeds, the page then holds the bytes, all else in flash is as it was, and the
  -- buffer is erased for the next commit.
  pub commit_programs :
      (f : Flash B)
      → f.flash_locked ≡ false
      → ((i : ℕ) → i < 64 → word i f.hardware ≡ 0xFFFF)
      → ((commit boot page bytes f).1 ≡ true)
        × IsProgrammed f.hardware (commit boot page bytes f).0.hardware
  commit_programs f unlocked clear = rw (commit_lem f unlocked) (refl, programmed f clear)

  pub flash_locked-commit :
      (f : Flash B) → f.flash_locked ≡ false → (commit boot page bytes f).0.flash_locked ≡ false
  flash_locked-commit f unlocked = rw (commit_lem f unlocked) unlocked
