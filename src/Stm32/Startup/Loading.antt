-- ===== src/Stm32/Startup/Loading.antt =====
-- What the loops of `resetHandler` of src/stm32/startup.c leave in memory.
use cannuccia.Common.{
  ℕ, zero, suc, ◌+◌, ◌-◌, ◌≤◌, ◌<◌, ◌≡◌, ◌≢◌, refl, ap, ◌∙◌, ◌⊎◌, inl, inr, some, ltb, arith,
  Bool-cases,
}
use cannuccia.Stm32.Startup.{Memory, store, copy_loop, zero_loop}

-- The bytes from `src` on have been copied to the addresses from `dst` to `end`, and no other.
pub record IsCopied (src dst end : ℕ) (before after : Memory) : Type 0 where
  pub copied : (a : ℕ) → dst ≤ a → a < end → after a ≡ before (src + (a - dst))
  pub others : (a : ℕ) → (a < dst) ⊎ (end ≤ a) → after a ≡ before a

pub record IsZeroed (dst end : ℕ) (before after : Memory) : Type 0 where
  pub zeroed : (a : ℕ) → dst ≤ a → a < end → after a ≡ 0
  pub others : (a : ℕ) → (a < dst) ⊎ (end ≤ a) → after a ≡ before a

store-same : (a v : ℕ) (m : Memory) → store a v m a ≡ v
store-same a v m = ground arith

store-other : (a v x : ℕ) (m : Memory) → x ≢ a → store a v m x ≡ m x
store-other a v x m h = ground arith

split_at : (dst a : ℕ) → dst ≤ a → (a ≡ dst) ⊎ (dst + 1 ≤ a)
split_at dst a h = omega arith

-- One step, and the steps after it.
IsCopied-suc :
    (src dst end : ℕ) (m after : Memory)
    → dst < end
    → (dst ≤ src) ⊎ (src + (end - dst) ≤ dst)
    → IsCopied (src + 1) (dst + 1) end (store dst (m src) m) after
    → IsCopied src dst end m after
IsCopied-suc src dst end m after h apart rest = record {
  copied = λ a low high. elim (split_at dst a low) [
    | inl first ↦
        let start : src ≡ src + (dst - dst) = omega arith in
        let here : store dst (m src) m a ≡ m (src + (a - dst)) =
          rw first (store-same dst (m src) m ∙ ap m start) in
        rest.others a (inl (omega arith)) ∙ here
    | inr later ↦
        let next : src + 1 + (a - (dst + 1)) ≡ src + (a - dst) = omega arith in
        let kept : store dst (m src) m (src + 1 + (a - (dst + 1))) ≡ m (src + 1 + (a - (dst + 1))) =
          store-other dst (m src) (src + 1 + (a - (dst + 1))) m (λ e. ground arith) in
        rest.copied a later high ∙ kept ∙ ap m next
  ];
  others =
      λ a outside. rest.others a (ground arith) ∙ store-other dst (m src) a m (λ e. ground arith);
}

pub copy_loop-IsCopied :
    (fuel src dst end : ℕ) (m : Memory)
    → end - dst < fuel
    → (dst ≤ src) ⊎ (src + (end - dst) ≤ dst)
    → (after : Memory) × (copy_loop fuel src dst end m ≡ some after) × IsCopied src dst end m after
unfolding copy_loop
copy_loop-IsCopied zero src dst end m h apart = absurd (omega arith)
copy_loop-IsCopied (suc fuel) src dst end m h apart = elim (Bool-cases (ltb dst end)) [
  | inl more ↦
      let (after, returns, rest) =
        copy_loop-IsCopied fuel (src + 1) (dst + 1) end (store dst (m src) m) (ground arith)
          (ground arith) in
      rw more (after, returns, IsCopied-suc src dst end m after (ground arith) apart rest)
  | inr done ↦
      rw done (
        m,
        refl,
        record { copied = λ a low high. absurd (ground arith); others = λ a outside. refl },
      )
]

IsZeroed-suc :
    (dst end : ℕ) (m after : Memory)
    → dst < end
    → IsZeroed (dst + 1) end (store dst 0 m) after
    → IsZeroed dst end m after
IsZeroed-suc dst end m after h rest = record {
  zeroed = λ a low high. elim (split_at dst a low) [
    | inl first ↦
        let here : store dst 0 m a ≡ 0 = rw first (store-same dst 0 m) in
        rest.others a (inl (omega arith)) ∙ here
    | inr later ↦ rest.zeroed a later high
  ];
  others = λ a outside. rest.others a (ground arith) ∙ store-other dst 0 a m (λ e. ground arith);
}

pub zero_loop-IsZeroed :
    (fuel dst end : ℕ) (m : Memory)
    → end - dst < fuel
    → (after : Memory) × (zero_loop fuel dst end m ≡ some after) × IsZeroed dst end m after
unfolding zero_loop
zero_loop-IsZeroed zero dst end m h = absurd (omega arith)
zero_loop-IsZeroed (suc fuel) dst end m h = elim (Bool-cases (ltb dst end)) [
  | inl more ↦
      let (after, returns, rest) =
        zero_loop-IsZeroed fuel (dst + 1) end (store dst 0 m) (ground arith) in
      rw more (after, returns, IsZeroed-suc dst end m after (ground arith) rest)
  | inr done ↦
      rw done (
        m,
        refl,
        record { zeroed = λ a low high. absurd (ground arith); others = λ a outside. refl },
      )
]
