-- ===== src/Tests/Bank.antt =====
-- A flash controller of the STM32 that is busy for one read of its status after every access that
-- takes time.
use cannuccia.Common.{
  ℕ, ◌/◌, ◌<◌, ◌≡◌, refl, bit_and, Bool, true, false, ◌==◌, if◌then◌else◌, arith,
}
use cannuccia.Stm32.Can.{clear_bit}
use cannuccia.Stm32.Flash.{Controller, page_size}
use cannuccia.Stm32.Flash.Hardware.{FlashMemory}
use cannuccia.Stm32.Flash.Waiting.{ReadyIn}

pub record Bank : Type 0 where
  pub cr : ℕ
  pub ar_reg : ℕ
  pub is_busy : Bool
  pub halves : ℕ → ℕ

abbrev pub bank_controller : Controller Bank
bank_controller = record {
  read_cr = λ b. b.cr;
  write_cr = λ v b. record {
    cr = v;
    ar_reg = b.ar_reg;
    is_busy = if bit_and v 0x40 == 0 then b.is_busy else true;
    halves = λ x.
        if bit_and v 0x40 == 0
        then b.halves x
        else if x / page_size == b.ar_reg / page_size
        then 0xFFFF
        else b.halves x;
  };
  write_keyr = λ k b. record b { cr = 0 };
  write_ar = λ a b. record b { ar_reg = a };
  read_sr = λ b. (
    if b.is_busy then 1 else 0,
    record b { is_busy = false; cr = if b.is_busy then b.cr else bit_and b.cr 0xFFFFFFBF },
  );
  read_obr = λ b. 0;
  write_half = λ a v b. record b { is_busy = true; halves = λ x. if x == a then v else b.halves x };
  read_word = λ a b. 0;
  set_msp = λ v b. b;
  set_vtor = λ v b. b;
  call = λ a b. b;
}

abbrev pub half : ℕ → Bank → ℕ
half x b = b.halves x

abbrev pub ar : Bank → ℕ
ar b = b.ar_reg

busy_cr :
    (b : Bool) (cr : ℕ)
    → (bit_and (if b then 1 else 0) 0x01 == 0) ≡ false
    → (if b then cr else bit_and cr 0xFFFFFFBF) ≡ cr
busy_cr true cr h = refl
busy_cr false cr h = cc

idle_cr :
    (b : Bool) (cr : ℕ)
    → (bit_and (if b then 1 else 0) 0x01 == 0) ≡ true
    → (if b then cr else bit_and cr 0xFFFFFFBF) ≡ bit_and cr 0xFFFFFFBF
idle_cr true cr h = cc
idle_cr false cr h = refl

pub bank_laws : FlashMemory bank_controller half ar
unfolding clear_bit
bank_laws = record {
  half_sr = λ x b. refl;
  cr_sr_busy = λ b h. busy_cr b.is_busy b.cr h;
  cr_sr_idle = λ b h. idle_cr b.is_busy b.cr h;
  idle_sr = λ b h. refl;
  cr_write = λ v b h. refl;
  ar_write = λ a b h. refl;
  cr_ar = λ a b. refl;
  half_ar = λ x a b. refl;
  idle_ar = λ a b h. h;
  half_cr = λ x v b h. rw h refl;
  idle_cr = λ v b h k. rw h k;
  erase_half = λ x b h k. refl;
  program_half = λ d v x b h k l m. refl;
  cr_half = λ d v b. refl;
}

pub gets_ready : (b : Bank) → (n : ℕ) × (n < 3) × ReadyIn bank_controller n b
gets_ready b = (1, omega arith, unfold ReadyIn in refl)
