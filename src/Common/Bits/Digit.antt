-- ===== src/Common/Bits/Digit.antt =====
-- The binary digits of `|`.
use Prim.Native.Nat.{ℕ, zero, suc, ◌*◌, ◌/◌, ◌%◌, ◌^◌, max, bit_or}
use mathlib.Core.Path.{◌≡◌, refl, sym, ap, ◌∙◌}
use native.Mathlib.Nat.{pow-suc, div-one, div-div-eq-div-mul}
use mathlib.Core.Logic.{◌⊎◌}
use native.Mathlib.Omega.{arith}
use cannuccia.Common.Bits.Step.{bit_or_halves}

-- The digit of `x` that is worth `2 ^ k`.
abbrev pub digit : ℕ → ℕ → ℕ
digit k x = x / 2 ^ k % 2

shift_digit : (k x : ℕ) → x / 2 ^ suc k ≡ x / 2 / 2 ^ k
shift_digit k x =
    let doubled : 2 ^ suc k ≡ 2 * 2 ^ k = omega (arith, pow-suc 2 k) in
    ap (λ (t : ℕ). x / t) doubled ∙ sym (div-div-eq-div-mul x 2 (2 ^ k))

bit_or_shift : (k x y : ℕ) → bit_or x y / 2 ^ k ≡ bit_or (x / 2 ^ k) (y / 2 ^ k)
bit_or_shift zero x y = rw (div-one (bit_or x y), div-one x, div-one y) refl
bit_or_shift (suc k) x y =
    let rest = bit_or_shift k (x / 2) (y / 2) in
    let half : bit_or x y / 2 ≡ bit_or (x / 2) (y / 2) = omega (arith, bit_or_halves x y) in
    rw (shift_digit k (bit_or x y), shift_digit k x, shift_digit k y, half) rest

pub bit_or-digit : (k x y : ℕ) → digit k (bit_or x y) ≡ max (digit k x) (digit k y)
bit_or-digit k x y = omega (arith, bit_or_shift k x y, bit_or_halves (x / 2 ^ k) (y / 2 ^ k))

pub set_digit : (k x y : ℕ) → (digit k x ≡ 1) ⊎ (digit k y ≡ 1) → digit k (bit_or x y) ≡ 1
set_digit k x y h = omega (arith, bit_or-digit k x y)
