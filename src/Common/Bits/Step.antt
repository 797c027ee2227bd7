-- ===== src/Common/Bits/Step.antt =====
-- `&`, `|` and `^` at variables: one equation for the lowest digit.
use Prim.Native.Nat.{ℕ, zero, suc, ◌+◌, ◌*◌, ◌/◌, ◌%◌, ◌≤◌, min, max, differ}
use Prim.Native.Nat.{bit_and, bit_or, bit_xor, digits, bitwise}
use Prim.Native.Nat.{bit_and-bitwise, bit_or-bitwise, bit_xor-bitwise}
use mathlib.Core.Path.{◌≡◌, refl}
use native.Mathlib.Omega.{arith}

module _ (rest : ℕ → ℕ) (digit : ℕ → ℕ → ℕ) where
  -- Fuel beyond the first operand makes no difference.
  spare_fuel :
      (more fuel x y : ℕ)
      → fuel ≤ more
      → x ≤ fuel
      → digits rest digit more x y ≡ digits rest digit fuel x y
  spare_fuel (suc more) (suc fuel) (suc x) y less h =
      let halved = spare_fuel more fuel (suc x / 2) (y / 2) (omega arith) (omega arith) in
      omega (arith, halved)
  spare_fuel (suc more) (suc fuel) zero y less h = refl
  spare_fuel (suc more) zero zero y less h = refl
  spare_fuel zero zero zero y less h = refl
  spare_fuel zero (suc fuel) x y less h = absurd (omega arith)
  spare_fuel _ zero (suc x) y less h = absurd (omega arith)

  lowest_digit :
      (x y : ℕ)
      → bitwise rest digit (suc x) y
        ≡ bitwise rest digit (suc x / 2) (y / 2) * 2 + digit (suc x % 2) (y % 2)
  lowest_digit x y =
      let half = suc x / 2 in
      let enough = spare_fuel x half half (y / 2) (omega arith) (omega arith) in
      omega (arith, enough)

pub bit_and_halves : (x y : ℕ) → bit_and x y ≡ min (x % 2) (y % 2) + 2 * bit_and (x / 2) (y / 2)
bit_and_halves (suc x) y =
    let upper = bit_and-bitwise (suc x / 2) (y / 2) in
    let whole = bit_and-bitwise (suc x) y in
    let split = lowest_digit (λ t. 0) min x y in omega (arith, whole, split, upper)
bit_and_halves zero y =
    let upper = bit_and-bitwise 0 (y / 2) in
    let whole = bit_and-bitwise 0 y in omega (arith, whole, upper)

pub bit_or_halves : (x y : ℕ) → bit_or x y ≡ max (x % 2) (y % 2) + 2 * bit_or (x / 2) (y / 2)
bit_or_halves (suc x) y =
    let upper = bit_or-bitwise (suc x / 2) (y / 2) in
    let whole = bit_or-bitwise (suc x) y in
    let split = lowest_digit (λ t. t) max x y in omega (arith, whole, split, upper)
bit_or_halves zero y =
    let upper = bit_or-bitwise 0 (y / 2) in
    let whole = bit_or-bitwise 0 y in omega (arith, whole, upper)

pub bit_xor_halves : (x y : ℕ) → bit_xor x y ≡ differ (x % 2) (y % 2) + 2 * bit_xor (x / 2) (y / 2)
bit_xor_halves (suc x) y =
    let upper = bit_xor-bitwise (suc x / 2) (y / 2) in
    let whole = bit_xor-bitwise (suc x) y in
    let split = lowest_digit (λ t. t) differ x y in omega (arith, whole, split, upper)
bit_xor_halves zero y =
    let upper = bit_xor-bitwise 0 (y / 2) in
    let whole = bit_xor-bitwise 0 y in omega (arith, whole, upper)
