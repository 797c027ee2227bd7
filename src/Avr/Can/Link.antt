-- ===== src/Avr/Can/Link.antt =====
-- The SPI link of src/avr/can.c: `spiSelect`, `spiDeselect` and `spiTransfer`, and the chip that
-- answers, are parameters. Actions on them are a state monad.
use cannuccia.Common.{ℕ, zero, suc, List, [], ◌∷◌}

-- `exchange b s` shifts a byte out and gives the byte that comes back, as `spiTransfer` does when its
-- wait has ended.
pub record Spi (S : Type 0) : Type 0 where
  pub chip_select : S → S
  pub chip_deselect : S → S
  pub exchange : ℕ → S → ℕ × S
  -- The writes of `cnCANInit` to the port and SPI registers, and `_delay_ms(1)`.
  pub configure : S → S
  pub delay : S → S

abbrev pub M : Type 0 → Type 0 → Type 0
M S A = S → A × S

infixl 5 ◌>>=◌ ◌>>◌
abbrev pub ◌>>=◌ : {S A B : Type 0} → M S A → (A → M S B) → M S B
◌>>=◌ m f s = let (a, t) = m s in f a t

abbrev pub ◌>>◌ : {S A B : Type 0} → M S A → M S B → M S B
◌>>◌ m k s = let (a, t) = m s in k t

abbrev pub pure : {S A : Type 0} → A → M S A
pure a s = (a, s)

module _ {S : Type 0} (spi : Spi S) where
  -- `spiSelect`, `spiDeselect` and `spiTransfer`
  abbrev pub select : M S (Unit {0})
  select s = (tt, spi.chip_select s)

  abbrev pub deselect : M S (Unit {0})
  deselect s = (tt, spi.chip_deselect s)

  abbrev pub transfer : ℕ → M S ℕ
  transfer b = spi.exchange b

  -- A loop that sends the bytes of a buffer, and one that receives `n` bytes.
  unfoldable pub send_all : List ℕ → M S (Unit {0})
  send_all [] s = (tt, s)
  send_all (b ∷ bs) s = send_all bs (spi.exchange b s).1

  unfoldable pub receive_all : ℕ → M S (List ℕ)
  receive_all zero s = ([], s)
  receive_all (suc n) s =
      let (b, t) = spi.exchange 0x00 s in let (bs, u) = receive_all n t in (b ∷ bs, u)
