-- ===== src/Common/Halves.antt =====
-- A buffer of bytes as words of 16 bits, with the low byte first.
use Prim.Native.Nat.{ℕ, zero, suc, ◌+◌, ◌-◌, ◌*◌, ◌/◌, ◌%◌, ◌<◌}
use mathlib.Core.Path.{◌≡◌, refl}
use mathlib.Core.List.{List, [], ◌∷◌}
use native.Mathlib.Omega.{arith}
use cannuccia.Common.Tests.{◌==◌, if◌then◌else◌}
use cannuccia.Common.Lists.{get_or, length}
use cannuccia.Common.Words.{IsBytes}

-- The words of a little-endian buffer.
unfoldable pub word_at : List ℕ → ℕ → ℕ
word_at (lo ∷ hi ∷ rest) zero = lo + hi * 256
word_at (lo ∷ hi ∷ rest) (suc i) = word_at rest i
word_at _ i = 0

pub word_at_next :
    (d lo hi : ℕ) (src : List ℕ)
    → word_at (lo ∷ hi ∷ src) d ≡ (if d == 0 then lo + hi * 256 else word_at src (d - 1))
unfolding word_at
word_at_next zero lo hi src = refl
word_at_next (suc d) lo hi src =
    let pred_suc : suc d - 1 ≡ d = omega arith in rw pred_suc (ground arith)

-- The two bytes of a word of the buffer.
pub word_at_parts :
    (src : List ℕ) (i : ℕ)
    → IsBytes src
    → 2 * i + 1 < length src
    → (word_at src i % 256 ≡ get_or src (2 * i) 0)
      × (word_at src i / 256 ≡ get_or src (2 * i + 1) 0)
unfolding word_at
word_at_parts [] i h e = absurd (omega arith)
word_at_parts (lo ∷ []) i h e = absurd (omega arith)
word_at_parts (lo ∷ hi ∷ src) zero h e = (omega (arith, h.0, h.1.0), omega (arith, h.0, h.1.0))
word_at_parts (lo ∷ hi ∷ src) (suc i) h e =
    let even : 2 * suc i ≡ suc (suc (2 * i)) = omega arith in
    let odd : 2 * suc i + 1 ≡ suc (suc (2 * i + 1)) = omega arith in
    rw (odd, even) (word_at_parts src i h.1.1 (omega arith))
