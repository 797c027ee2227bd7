-- ===== src/Util/Log2.antt =====
-- `cnLog2I` of src/common/util.h: its two compile-time variants, and where they agree.
use native.Mathlib.Nat.{pow-suc, one-le-pow}
use cannuccia.Common.{
  ℕ, zero, suc, ◌+◌, ◌-◌, ◌*◌, ◌/◌, ◌^◌, ◌≤◌, ◌<◌, ◌≡◌, refl, ◌↔◌, ◌∙◌, sym, ap, some, arith,
}
use cannuccia.Util.{halvings, log2_builtin, log2_portable}

halvings-zero : (fuel : ℕ) → halvings fuel 0 ≡ 0
unfolding halvings
halvings-zero zero = refl
halvings-zero (suc fuel) = refl

halvings_bounds :
    (fuel n : ℕ)
    → n ≤ fuel
    → (n < 2 ^ halvings fuel n) × (0 < n → (1 ≤ halvings fuel n) × (2 ^ halvings fuel n ≤ 2 * n))
unfolding halvings
halvings_bounds zero n h = (omega arith, λ p. absurd (omega arith))
halvings_bounds (suc fuel) n h = ground (
  arith,
  halvings_bounds fuel (n / 2) (omega arith),
  pow-suc 2 (halvings fuel (n / 2)),
  halvings-zero fuel,
)

-- The loop finds the integer logarithm of every positive number.
pub log2_portable_lem :
    (n : ℕ) → 0 < n → (k : ℕ) × (log2_portable n ≡ some k) × (2 ^ k ≤ n) × (n < 2 ^ suc k)
unfolding log2_portable
log2_portable_lem n pos =
    let (above, lower) = halvings_bounds n n (omega arith) in
    let rounds : halvings n n ≡ suc (halvings n n - 1) = omega (arith, lower pos) in
    (
      halvings n n - 1,
      ground arith,
      omega (arith, lower pos, ap (λ (t : ℕ). 2 ^ t) rounds, pow-suc 2 (halvings n n - 1)),
      omega (arith, above, ap (λ (t : ℕ). 2 ^ t) rounds),
    )

pow_two_pos : (k : ℕ) → 1 ≤ 2 ^ k
pow_two_pos k = one-le-pow k 2 (omega arith)

-- A power of two determines its exponent, also with an odd factor.
odd_power : (t j q : ℕ) → (2 * q + 1) * 2 ^ t ≡ 2 ^ j → t ≡ j
odd_power zero zero q e = refl
odd_power zero (suc j) q e = absurd (omega (arith, pow-suc 2 j))
odd_power (suc t) zero q e =
    absurd (omega (arith, pow-suc 2 t, pow_two_pos t, ap (λ (x : ℕ). 2 * q * x) (pow-suc 2 t)))
odd_power (suc t) (suc j) q e = ap suc (
    odd_power t j q
      (omega (arith, pow-suc 2 t, pow-suc 2 j, ap (λ (x : ℕ). 2 * q * x) (pow-suc 2 t))))

bracket_unique : (j k : ℕ) → 2 ^ k ≤ 2 ^ j → 2 ^ j < 2 ^ suc k → j ≡ k
bracket_unique zero zero p q = refl
bracket_unique zero (suc k) p q = absurd (omega (arith, pow-suc 2 k, pow_two_pos k))
bracket_unique (suc j) zero p q = absurd (omega (arith, pow-suc 2 j, pow_two_pos j))
bracket_unique (suc j) (suc k) p q = ap suc (
    bracket_unique j k (omega (arith, pow-suc 2 k, pow-suc 2 j))
      (omega (arith, pow-suc 2 k, pow-suc 2 j, pow-suc 2 (suc k))))

odd_factor : (q p : ℕ) → (2 * q + 1) * p < 2 * p → (2 * q + 1) * p ≡ p
odd_factor zero p h = omega arith
odd_factor (suc q) p h = absurd (omega arith)

-- What GCC documents of `__builtin_ctz`: the number of trailing zero bits of a positive number.
abbrev pub CountsTrailingZeros : (ℕ → ℕ) → Type 0
CountsTrailingZeros ctz = (n : ℕ) → 0 < n → (q : ℕ) × (n ≡ (2 * q + 1) * 2 ^ ctz n)

module _ (ctz : ℕ → ℕ) (ctz_law : CountsTrailingZeros ctz) where
  builtin_power : (j : ℕ) → log2_builtin ctz (2 ^ j) ≡ log2_portable (2 ^ j)
  unfolding log2_builtin
  builtin_power j =
      let (k, finds, low, high) = log2_portable_lem (2 ^ j) (pow_two_pos j) in
      let (q, e) = ctz_law (2 ^ j) (pow_two_pos j) in
      ground (
        arith,
        odd_power (ctz (2 ^ j)) j q (sym e),
        bracket_unique j k low high,
        pow_two_pos j,
        finds,
      )

  -- The two variants of `cnLog2I` agree exactly on the powers of two.
  pub builtin-portable_iff :
      (n : ℕ) → 0 < n → (log2_builtin ctz n ≡ log2_portable n) ↔ ((j : ℕ) × (n ≡ 2 ^ j))
  builtin-portable_iff n pos = (agrees, λ w. rw w.1 (builtin_power w.0))
    where
      agrees : log2_builtin ctz n ≡ log2_portable n → (j : ℕ) × (n ≡ 2 ^ j)
      agrees e =
          let (k, finds, low, high) = log2_portable_lem n pos in
          let (q, split) = ctz_law n pos in
          let same : ctz n ≡ k = unfold log2_builtin in ground arith in
          let exact : n ≡ (2 * q + 1) * 2 ^ k = split ∙ ap (λ (t : ℕ). (2 * q + 1) * 2 ^ t) same in
          (
            k,
            omega (
              arith,
              exact,
              high,
              pow-suc 2 k,
              odd_factor q (2 ^ k) (omega (arith, exact, high, pow-suc 2 k)),
            ),
          )
