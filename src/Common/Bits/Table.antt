-- ===== src/Common/Bits/Table.antt =====
-- A test of every value below a bound, by evaluation.
use Prim.Native.Nat.{ℕ, zero, suc, ◌+◌, ◌≤◌, ◌<◌}
use mathlib.Core.Path.{◌≡◌, refl}
use mathlib.Core.Logic.{◌⊎◌, inl, inr}
use mathlib.Core.Bool.{Bool, true, false}
use native.Mathlib.Omega.{arith}

-- The `count` values from `start` on.
unfoldable pub holds_from : ℕ → ℕ → (ℕ → Bool) → Bool
holds_from zero start test = true
holds_from (suc count) start test =
    let others = holds_from count (suc start) test in
    elim (test start) [ true ↦ others | false ↦ false ]

abbrev pub all_below : ℕ → (ℕ → Bool) → Bool
all_below bound test = holds_from bound 0 test

split_at : (start x : ℕ) → start ≤ x → (x ≡ start) ⊎ (suc start ≤ x)
split_at start x h = omega arith

first_holds :
    (b others : Bool)
    → (elim b [ true ↦ others | false ↦ false ]) ≡ true
    → (b ≡ true) × (others ≡ true)
first_holds true others e = (refl, e)
first_holds false others e = cc

holds_from-at :
    (count start : ℕ) (test : ℕ → Bool)
    → holds_from count start test ≡ true
    → (x : ℕ) → start ≤ x
    → x < start + count
    → test x ≡ true
unfolding holds_from
holds_from-at zero start test e x low high = absurd (omega arith)
holds_from-at (suc count) start test e x low high =
    let (here, there) = first_holds (test start) (holds_from count (suc start) test) e in
    elim (split_at start x low) [
      | inl first ↦ rw first here
      | inr later ↦ holds_from-at count (suc start) test there x later (omega arith)
    ]

pub all_below_sound :
    (bound : ℕ) (test : ℕ → Bool) (x : ℕ) → all_below bound test ≡ true → x < bound → test x ≡ true
all_below_sound bound test x e h = holds_from-at bound 0 test e x (omega arith) (omega arith)
