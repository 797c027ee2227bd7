-- ===== src/Common/Bits/Xor.antt =====
-- `^` is a group law on words, and acts on the high and the low bits apart.
use Prim.Native.Nat.{ℕ, zero, suc, ◌+◌, ◌*◌, ◌/◌, ◌%◌, ◌^◌, ◌≤◌, ◌<◌, differ, bit_xor}
use mathlib.Core.Path.{◌≡◌, refl, ap, ◌∙◌}
use native.Mathlib.Nat.{pow-suc}
use native.Mathlib.Omega.{arith}
use cannuccia.Common.Bits.Step.{bit_xor_halves}
use cannuccia.Common.Bits.Masks.{shift_suc}

differ_bits : (a b : ℕ) → a < 2 → b < 2 → differ a b ≡ (a + b) % 2
differ_bits zero b p q = omega arith
differ_bits (suc zero) zero p q = refl
differ_bits (suc zero) (suc zero) p q = refl
differ_bits (suc zero) (suc (suc b)) p q = absurd (omega arith)
differ_bits (suc (suc a)) b p q = absurd (omega arith)

zero_of_le : (a : ℕ) → a ≤ 0 → a ≡ 0
zero_of_le a h = omega arith

-- The lowest digit of `a ^ b`, by arithmetic.
pub bit_xor_digit : (a b : ℕ) → bit_xor a b ≡ bit_xor (a / 2) (b / 2) * 2 + (a + b) % 2
bit_xor_digit a b =
    omega (arith, bit_xor_halves a b, differ_bits (a % 2) (b % 2) (omega arith) (omega arith))

xor_comm : (n a b : ℕ) → a ≤ n → b ≤ n → bit_xor a b ≡ bit_xor b a
xor_comm zero a b p q = rw (zero_of_le a p, zero_of_le b q)
xor_comm (suc n) a b p q = omega (
  arith,
  bit_xor_digit a b,
  bit_xor_digit b a,
  xor_comm n (a / 2) (b / 2) (omega arith) (omega arith),
)

xor_self : (n a : ℕ) → a ≤ n → bit_xor a a ≡ 0
xor_self zero a p = rw (zero_of_le a p)
xor_self (suc n) a p = omega (arith, bit_xor_digit a a, xor_self n (a / 2) (omega arith))

xor_zero : (n a : ℕ) → a ≤ n → bit_xor a 0 ≡ a
xor_zero zero a p = rw (zero_of_le a p)
xor_zero (suc n) a p = omega (arith, bit_xor_digit a 0, xor_zero n (a / 2) (omega arith))

-- The two parts of `a ^ b`, for a step that goes on with the quotient.
pub bit_xor-half : (a b : ℕ) → bit_xor a b / 2 ≡ bit_xor (a / 2) (b / 2)
bit_xor-half a b = omega (arith, bit_xor_digit a b)

pub bit_xor-parity : (a b : ℕ) → bit_xor a b % 2 ≡ (a + b) % 2
bit_xor-parity a b = omega (arith, bit_xor_digit a b)

xor_assoc :
    (n a b c : ℕ) → a ≤ n → b ≤ n → c ≤ n → bit_xor (bit_xor a b) c ≡ bit_xor a (bit_xor b c)
xor_assoc zero a b c p q r = rw (zero_of_le a p, zero_of_le b q, zero_of_le c r)
xor_assoc (suc n) a b c p q r = ground (
  arith,
  bit_xor_digit (bit_xor a b) c,
  bit_xor_digit a (bit_xor b c),
  bit_xor-half a b,
  bit_xor-half b c,
  bit_xor-parity a b,
  bit_xor-parity b c,
  xor_assoc n (a / 2) (b / 2) (c / 2) (omega arith) (omega arith) (omega arith),
)

pub bit_xor_comm : (a b : ℕ) → bit_xor a b ≡ bit_xor b a
bit_xor_comm a b = xor_comm (a + b) a b (omega arith) (omega arith)

pub bit_xor_self : (a : ℕ) → bit_xor a a ≡ 0
bit_xor_self a = xor_self a a (omega arith)

pub bit_xor-zero : (a : ℕ) → bit_xor a 0 ≡ a
bit_xor-zero a = xor_zero a a (omega arith)

pub bit_xor_assoc : (a b c : ℕ) → bit_xor (bit_xor a b) c ≡ bit_xor a (bit_xor b c)
bit_xor_assoc a b c = xor_assoc (a + b + c) a b c (omega arith) (omega arith) (omega arith)

pub bit_xor_cancel : (a b : ℕ) → bit_xor (bit_xor a b) b ≡ a
bit_xor_cancel a b =
    bit_xor_assoc a b b ∙ (ap (λ (t : ℕ). bit_xor a t) (bit_xor_self b) ∙ bit_xor-zero a)

pub bit_xor_lt : (k a b : ℕ) → a < 2 ^ k → b < 2 ^ k → bit_xor a b < 2 ^ k
bit_xor_lt zero a b p q = rw (zero_of_le a (omega arith), zero_of_le b (omega arith)) (omega arith)
bit_xor_lt (suc k) a b p q = omega (
  arith,
  bit_xor_digit a b,
  pow-suc 2 k,
  bit_xor_lt k (a / 2) (b / 2) (omega (arith, pow-suc 2 k)) (omega (arith, pow-suc 2 k)),
)

-- `^` acts on the bits above `k` and on those below apart.
pub bit_xor_parts :
    (k q p r s : ℕ)
    → r < 2 ^ k
    → s < 2 ^ k
    → bit_xor (q * 2 ^ k + r) (p * 2 ^ k + s) ≡ bit_xor q p * 2 ^ k + bit_xor r s
bit_xor_parts zero q p r s h h' =
    rw (zero_of_le r (omega arith), zero_of_le s (omega arith)) (ground arith)
bit_xor_parts (suc k) q p r s h h' = ground (
  arith,
  bit_xor_digit (q * 2 ^ suc k + r) (p * 2 ^ suc k + s),
  bit_xor_digit r s,
  shift_suc q k,
  shift_suc p k,
  shift_suc (bit_xor q p) k,
  bit_xor_parts k q p (r / 2) (s / 2) (omega (arith, pow-suc 2 k)) (omega (arith, pow-suc 2 k)),
)
