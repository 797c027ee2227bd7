-- ===== src/Stm32/Can/Payload.antt =====
-- The data registers of a mailbox hold the bytes of a message (src/stm32/can.c).
use mathlib.Core.Path.{ap₂}
use cannuccia.Common.{
  ℕ, zero, suc, ◌+◌, ◌*◌, ◌/◌, ◌^◌, ◌≤◌, ◌<◌, ◌≡◌, refl, bit_and, bit_or, Bool, true, false, List,
  [], ◌∷◌, length, get_or, take, leb, IsBytes, IsBytes-get_or, if◌then◌else◌, arith,
}
use cannuccia.Common.Bits.{bit_and_low, bit_and_field, bit_or_sum, bit_or_sum_right, bit_or-zero}
use cannuccia.Stm32.Can.{or_if, high_word, low_word, payload}

-- A byte that a `case` takes, or none.
pub taken : Bool → ℕ → ℕ
taken t x = if t then x else 0

taken-lt : (t : Bool) (x : ℕ) → x < 256 → taken t x < 256
unfolding taken
taken-lt t x h = ground arith

or_if_lem : (t : Bool) (k x w : ℕ) → or_if t (x * 2 ^ k) w ≡ bit_or w (taken t x * 2 ^ k)
unfolding or_if taken
or_if_lem true k x w = refl
or_if_lem false k x w = ground (arith, bit_or-zero w)

word_of_bytes :
    (p q r s : Bool) (a b c d : ℕ)
    → a < 256
    → b < 256
    → c < 256
    → d < 256
    → or_if p a (or_if q (b * 2 ^ 8) (or_if r (c * 2 ^ 16) (or_if s (d * 2 ^ 24) 0)))
      ≡ taken s d * 2 ^ 24 + taken r c * 2 ^ 16 + taken q b * 2 ^ 8 + taken p a
word_of_bytes p q r s a b c d ha hb hc hd =
    let top = taken s d * 2 ^ 24 in
    let upper = top + taken r c * 2 ^ 16 in
    let middle = upper + taken q b * 2 ^ 8 in
    ground (
      arith,
      taken-lt s d hd,
      taken-lt r c hc,
      taken-lt q b hb,
      taken-lt p a ha,
      or_if_lem s 24 d 0,
      bit_or_sum_right 24 (taken s d) 0,
      or_if_lem r 16 c top,
      bit_or_sum 24 (taken s d) (taken r c * 2 ^ 16),
      or_if_lem q 8 b upper,
      bit_or_sum 16 (taken s d * 2 ^ 8 + taken r c) (taken q b * 2 ^ 8),
      or_if_lem p 0 a middle,
      bit_or_sum 8 (taken s d * 2 ^ 16 + taken r c * 2 ^ 8 + taken q b) (taken p a),
    )

-- The bytes of a word of four bytes.
split_word :
    (a b c d : ℕ)
    → a < 256
    → b < 256
    → c < 256
    → d < 256
    → let w = d * 2 ^ 24 + c * 2 ^ 16 + b * 2 ^ 8 + a in
      (bit_and w 0x000000FF ≡ a)
      × (bit_and w 0x0000FF00 / 2 ^ 8 ≡ b)
      × (bit_and w 0x00FF0000 / 2 ^ 16 ≡ c)
      × (bit_and w 0xFF000000 / 2 ^ 24 ≡ d)
split_word a b c d ha hb hc hd =
    let w = d * 2 ^ 24 + c * 2 ^ 16 + b * 2 ^ 8 + a in
    (
      omega (arith, bit_and_low 8 w),
      omega (arith, bit_and_field 8 8 w),
      omega (arith, bit_and_field 16 8 w),
      omega (arith, bit_and_field 24 8 w),
    )

-- The values of `f` at the first `k` indices.
abbrev pub table : (ℕ → ℕ) → ℕ → List ℕ
table f zero = []
table f (suc k) = f 0 ∷ table (λ i. f (suc i)) k

-- The byte that is sent at index `i`: none from the length on.
abbrev pub sent_byte : ℕ → List ℕ → ℕ → ℕ
sent_byte n bytes i = taken (leb (suc i) n) (get_or bytes i 0)

sent_byte-lt : (n : ℕ) (bytes : List ℕ) (i : ℕ) → IsBytes bytes → sent_byte n bytes i < 256
sent_byte-lt n bytes i h = taken-lt (leb (suc i) n) (get_or bytes i 0) (IsBytes-get_or bytes i h)

-- Four bytes that are sent, as a register.
abbrev sent_word : ℕ → List ℕ → ℕ → ℕ
sent_word n bytes i =
    sent_byte n bytes (3 + i) * 2 ^ 24
    + sent_byte n bytes (2 + i) * 2 ^ 16
    + sent_byte n bytes (1 + i) * 2 ^ 8
    + sent_byte n bytes i

low_word_lem : (n : ℕ) (bytes : List ℕ) → IsBytes bytes → low_word n bytes ≡ sent_word n bytes 0
unfolding low_word
low_word_lem n bytes h =
    word_of_bytes (leb 1 n) (leb 2 n) (leb 3 n) (leb 4 n) (get_or bytes 0 0) (get_or bytes 1 0)
      (get_or bytes 2 0) (get_or bytes 3 0) (IsBytes-get_or bytes 0 h) (IsBytes-get_or bytes 1 h)
      (IsBytes-get_or bytes 2 h) (IsBytes-get_or bytes 3 h)

high_word_lem : (n : ℕ) (bytes : List ℕ) → IsBytes bytes → high_word n bytes ≡ sent_word n bytes 4
unfolding high_word
high_word_lem n bytes h =
    word_of_bytes (leb 5 n) (leb 6 n) (leb 7 n) (leb 8 n) (get_or bytes 4 0) (get_or bytes 5 0)
      (get_or bytes 6 0) (get_or bytes 7 0) (IsBytes-get_or bytes 4 h) (IsBytes-get_or bytes 5 h)
      (IsBytes-get_or bytes 6 h) (IsBytes-get_or bytes 7 h)

split_sent :
    (n : ℕ) (bytes : List ℕ) (i : ℕ)
    → IsBytes bytes
    → let w = sent_word n bytes i in
      (bit_and w 0x000000FF ≡ sent_byte n bytes i)
      × (bit_and w 0x0000FF00 / 2 ^ 8 ≡ sent_byte n bytes (1 + i))
      × (bit_and w 0x00FF0000 / 2 ^ 16 ≡ sent_byte n bytes (2 + i))
      × (bit_and w 0xFF000000 / 2 ^ 24 ≡ sent_byte n bytes (3 + i))
split_sent n bytes i h =
    split_word (sent_byte n bytes i) (sent_byte n bytes (1 + i)) (sent_byte n bytes (2 + i))
      (sent_byte n bytes (3 + i)) (sent_byte-lt n bytes i h) (sent_byte-lt n bytes (1 + i) h)
      (sent_byte-lt n bytes (2 + i) h) (sent_byte-lt n bytes (3 + i) h)

-- The data registers after a send of `n` bytes.
pub payload_lem :
    (n : ℕ) (bytes : List ℕ) (ir dtr : ℕ)
    → IsBytes bytes
    → payload (record { ir = ir; dtr = dtr; dlr = low_word n bytes; dhr = high_word n bytes })
      ≡ table (sent_byte n bytes) 8
unfolding payload
payload_lem n bytes ir dtr h =
    let (a, b, c, d) = split_sent n bytes 0 h in
    let (e, f, g, j) = split_sent n bytes 4 h in
    rw (low_word_lem n bytes h, high_word_lem n bytes h) (rw (a, b, c, d, e, f, g, j))

take-table :
    (k n : ℕ) (f : ℕ → ℕ) (bytes : List ℕ)
    → n ≤ k
    → n ≤ length bytes
    → ((i : ℕ) → i < n → f i ≡ get_or bytes i 0)
    → take n (table f k) ≡ take n bytes
take-table k zero f bytes p q h = refl
take-table zero (suc n) f bytes p q h = absurd (omega arith)
take-table (suc k) (suc n) f [] p q h = absurd (omega arith)
take-table (suc k) (suc n) f (b ∷ bytes) p q h = ap₂ ◌∷◌ (h 0 (omega arith)) (
    take-table k n (λ i. f (suc i)) bytes (omega arith) (omega arith)
      (λ i lt. h (suc i) (omega arith)))

sent_byte_lem : (n i : ℕ) (bytes : List ℕ) → i < n → sent_byte n bytes i ≡ get_or bytes i 0
unfolding taken
sent_byte_lem n i bytes h = ground arith

-- A receiver takes out the bytes that were put in.
pub take_payload :
    (n : ℕ) (bytes : List ℕ)
    → n ≤ 8
    → n ≤ length bytes
    → take n (table (sent_byte n bytes) 8) ≡ take n bytes
take_payload n bytes short enough =
    take-table 8 n (sent_byte n bytes) bytes short enough (λ i h. sent_byte_lem n i bytes h)
