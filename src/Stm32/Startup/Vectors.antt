-- ===== src/Stm32/Startup/Vectors.antt =====
-- The vector table of src/stm32/startup.c and the interrupt that src/stm32/timer.c enables.
use cannuccia.Common.{
  ℕ, ◌+◌, ◌<◌, ◌≡◌, ◌≢◌, ◌↔◌, refl, sym, ◌∙◌, Bool, true, false, some, length, get_or, ◌==◌, ==_iff,
  arith,
}
use cannuccia.Common.Bits.{digit, holds_from, all_below, all_below_sound}
use cannuccia.Stm32.Timer.{Timer, timer_start, start_with}
use cannuccia.Stm32.Startup.{Isr, hcf, tim2_handler, address, reset_handler_isr, isrs}

-- The vectors before that of interrupt 0.
abbrev pub exceptions : ℕ
exceptions = 16

is_tim2 : Isr → Bool
is_tim2 (address a) = false
is_tim2 reset_handler_isr = false
is_tim2 hcf = false
is_tim2 tim2_handler = true

is_tim2_iff : (v : Isr) → (is_tim2 v ≡ true) ↔ (v ≡ tim2_handler)
unfolding is_tim2
is_tim2_iff (address a) = ground arith
is_tim2_iff reset_handler_isr = ground arith
is_tim2_iff hcf = ground arith
is_tim2_iff tim2_handler = ground arith

agree : Bool → Bool → Bool
agree true b = b
agree false true = false
agree false false = true

agree_sound : (a b : Bool) → agree a b ≡ true → a ≡ b
unfolding agree
agree_sound true b e = sym e
agree_sound false true e = cc
agree_sound false false e = refl

-- Interrupt `n` has a vector, and is 28 exactly when the vector is tim2Handler.
is_checked : ℕ → Bool
is_checked n = agree (digit n 0x10000000 == 1) (is_tim2 (get_or isrs (exceptions + n) hcf))

all_checked : all_below 68 is_checked ≡ true
unfolding holds_from is_checked agree is_tim2 isrs
all_checked = refl

vectors :
    (n : ℕ) → n < 68 → (digit n 0x10000000 ≡ 1) ↔ (get_or isrs (exceptions + n) hcf ≡ tim2_handler)
unfolding is_checked
vectors n h =
    let same : (digit n 0x10000000 == 1) ≡ is_tim2 (get_or isrs (exceptions + n) hcf) =
      agree_sound (digit n 0x10000000 == 1) (is_tim2 (get_or isrs (exceptions + n) hcf))
        (all_below_sound 68 is_checked n all_checked h) in
    let left = ==_iff (digit n 0x10000000) 1 in
    let right = is_tim2_iff (get_or isrs (exceptions + n) hcf) in
    (λ e. right.0 (sym same ∙ left.1 e), λ e. left.0 (same ∙ right.1 e))

module _ {H : Type 0} where
  -- Of the interrupts that have a vector, cnTimerStart enables that one, on a controller where
  -- none is enabled, whose vector is tim2Handler.
  pub isrs-timer_start :
      (n delay_us : ℕ) (oneshot : Bool) (on_timeout : H) (t : Timer H)
      → exceptions + n < length isrs
      → delay_us ≢ 0
      → t.iser0 ≡ 0
      → (digit n (timer_start delay_us oneshot (some on_timeout) t).0.iser0 ≡ 1)
        ↔ (get_or isrs (exceptions + n) hcf ≡ tim2_handler)
  unfolding timer_start start_with isrs
  isrs-timer_start n delay_us oneshot on_timeout t h k e =
      let some_delay : (delay_us == 0) ≡ false = ground arith in
      let enabled : (timer_start delay_us oneshot (some on_timeout) t).0.iser0 ≡ 0x10000000 =
        rw (some_delay, e) refl in
      let below : n < 68 = omega (arith, h) in rw enabled (vectors n below)
