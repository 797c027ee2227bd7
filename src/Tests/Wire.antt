-- ===== src/Tests/Wire.antt =====
-- An SPI link that answers from a list of bytes.
use cannuccia.Common.{ℕ, ◌%◌, ◌<◌, List, [], ◌∷◌, arith}
use cannuccia.Avr.Can.Link.{Spi}

-- What the controller will answer, and what it was sent.
pub record Wire : Type 0 where
  pub answers : List ℕ
  pub log : List ℕ

abbrev pub answer_next : ℕ → List ℕ → List ℕ → ℕ × Wire
answer_next b [] log = (0, record { answers = []; log = b ∷ log })
answer_next b (a ∷ rest) log = (a % 256, record { answers = rest; log = b ∷ log })

abbrev pub wire : Spi Wire
wire = record {
  chip_select = λ s. s;
  chip_deselect = λ s. s;
  exchange = λ b s. answer_next b s.answers s.log;
  configure = λ s. s;
  delay = λ s. s;
}

abbrev pub idle_wire : Wire
idle_wire = record { answers = []; log = [] }

answer_next-lt : (b : ℕ) (answers log : List ℕ) → (answer_next b answers log).0 < 256
answer_next-lt b [] log = omega arith
answer_next-lt b (a ∷ rest) log = omega arith

pub wire_gives_bytes : (b : ℕ) (s : Wire) → (wire.exchange b s).0 < 256
wire_gives_bytes b s = answer_next-lt b s.answers s.log
