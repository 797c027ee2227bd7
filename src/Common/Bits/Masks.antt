-- ===== src/Common/Bits/Masks.antt =====
-- A mask of low bits is a remainder, a mask of high bits a difference, and `|` of disjoint fields
-- a sum.
use Prim.Native.Nat.{ℕ, zero, suc, ◌+◌, ◌-◌, ◌*◌, ◌/◌, ◌%◌, ◌^◌, ◌≤◌, ◌<◌, bit_and, bit_or}
use mathlib.Core.Path.{◌≡◌, refl, ap, ◌∙◌}
use native.Mathlib.Nat.{pow-suc, one-le-pow}
use native.Mathlib.Omega.{arith}
use cannuccia.Common.Bits.Step.{bit_and_halves, bit_or_halves}

-- Doubling a shift.
pub shift_suc : (q k : ℕ) → q * 2 ^ suc k ≡ 2 * (q * 2 ^ k)
shift_suc q k = omega (arith, ap (λ (t : ℕ). q * t) (pow-suc 2 k))

zero_right : (n a : ℕ) → a ≤ n → (bit_and a 0 ≡ 0) × (bit_or a 0 ≡ a)
zero_right n zero h = (refl, refl)
zero_right zero (suc a) h = absurd (omega arith)
zero_right (suc n) (suc a) h =
    let rest = zero_right n (suc a / 2) (omega arith) in
    (omega (arith, bit_and_halves (suc a) 0, rest), omega (arith, bit_or_halves (suc a) 0, rest))

pub bit_and-zero : (a : ℕ) → bit_and a 0 ≡ 0
bit_and-zero a = (zero_right a a (omega arith)).0

pub bit_or-zero : (a : ℕ) → bit_or a 0 ≡ a
bit_or-zero a = (zero_right a a (omega arith)).1

or_comm : (n a b : ℕ) → a ≤ n → b ≤ n → bit_or a b ≡ bit_or b a
or_comm zero a b p q =
    let a_zero : a ≡ 0 = omega arith in let b_zero : b ≡ 0 = omega arith in rw (a_zero, b_zero)
or_comm (suc n) a b p q = omega (
  arith,
  bit_or_halves a b,
  bit_or_halves b a,
  or_comm n (a / 2) (b / 2) (omega arith) (omega arith),
)

pub bit_or_comm : (a b : ℕ) → bit_or a b ≡ bit_or b a
bit_or_comm a b = or_comm (a + b) a b (omega arith) (omega arith)

-- `(q << k) | r` is a sum where `r` has no more than `k` bits.
pub bit_or_sum : (k q r : ℕ) → r < 2 ^ k → bit_or (q * 2 ^ k) r ≡ q * 2 ^ k + r
bit_or_sum zero q r h = ground (arith, bit_or-zero q)
bit_or_sum (suc k) q r h = ground (
  arith,
  bit_or_halves (q * 2 ^ suc k) r,
  shift_suc q k,
  pow-suc 2 k,
  bit_or_sum k q (r / 2) (omega (arith, pow-suc 2 k)),
)

-- `r | (q << k)`, the order in which the program reads little-endian bytes.
pub bit_or_sum_right : (k q r : ℕ) → r < 2 ^ k → bit_or r (q * 2 ^ k) ≡ q * 2 ^ k + r
bit_or_sum_right k q r h = bit_or_comm r (q * 2 ^ k) ∙ bit_or_sum k q r h

-- `|` acts on the bits above `k` and on those below apart.
pub bit_or_parts :
    (k q p r s : ℕ)
    → r < 2 ^ k
    → s < 2 ^ k
    → bit_or (q * 2 ^ k + r) (p * 2 ^ k + s) ≡ bit_or q p * 2 ^ k + bit_or r s
bit_or_parts zero q p r s h h' =
    let r_zero : r ≡ 0 = omega arith in
    let s_zero : s ≡ 0 = omega arith in rw (r_zero, s_zero) (ground arith)
bit_or_parts (suc k) q p r s h h' = ground (
  arith,
  bit_or_halves (q * 2 ^ suc k + r) (p * 2 ^ suc k + s),
  bit_or_halves r s,
  shift_suc q k,
  shift_suc p k,
  shift_suc (bit_or q p) k,
  pow-suc 2 k,
  bit_or_parts k q p (r / 2) (s / 2) (omega (arith, pow-suc 2 k)) (omega (arith, pow-suc 2 k)),
)

and_low : (k q r : ℕ) → r < 2 ^ k → bit_and (q * 2 ^ k + r) (2 ^ k - 1) ≡ r
and_low zero q r h = rw bit_and-zero (omega arith)
and_low (suc k) q r h = ground (
  arith,
  bit_and_halves (q * 2 ^ suc k + r) (2 ^ suc k - 1),
  shift_suc q k,
  pow-suc 2 k,
  one-le-pow k 2,
  and_low k q (r / 2) (omega (arith, pow-suc 2 k)),
)

-- A mask of the `k` low bits is the remainder by `2 ^ k`.
pub bit_and_low : (k a : ℕ) → bit_and a (2 ^ k - 1) ≡ a % 2 ^ k
bit_and_low k a = ground (arith, one-le-pow k 2, and_low k (a / 2 ^ k) (a % 2 ^ k))

and_high : (k q r m : ℕ) → r < 2 ^ k → bit_and (q * 2 ^ k + r) (m * 2 ^ k) ≡ bit_and q m * 2 ^ k
and_high zero q r m h = let none_left : r ≡ 0 = omega arith in rw none_left (ground arith)
and_high (suc k) q r m h = ground (
  arith,
  bit_and_halves (q * 2 ^ suc k + r) (m * 2 ^ suc k),
  shift_suc q k,
  shift_suc m k,
  shift_suc (bit_and q m) k,
  and_high k q (r / 2) m (omega (arith, pow-suc 2 k)),
)

-- A mask without its `k` low bits.
pub bit_and_high : (k m a : ℕ) → bit_and a (m * 2 ^ k) ≡ bit_and (a / 2 ^ k) m * 2 ^ k
bit_and_high k m a = ground (arith, one-le-pow k 2, and_high k (a / 2 ^ k) (a % 2 ^ k) m)

-- A mask of `n` bits that start at bit `k`.
pub bit_and_field : (k n a : ℕ) → bit_and a ((2 ^ n - 1) * 2 ^ k) ≡ a / 2 ^ k % 2 ^ n * 2 ^ k
bit_and_field k n a =
    bit_and_high k (2 ^ n - 1) a ∙ ap (λ (t : ℕ). t * 2 ^ k) (bit_and_low n (a / 2 ^ k))
