-- ===== src/Crc/Errors.antt =====
-- What the checksum of src/stm32/util.c detects.
use cannuccia.Common.{
  ℕ, zero, suc, ◌+◌, ◌*◌, ◌^◌, ◌<◌, ◌≡◌, refl, ◌↔◌, ◌∙◌, sym, ap, bit_xor, arith, List, [], ◌∷◌,
  ◌++◌, length, take-length, IsBytes-append, IsBytes,
}
use cannuccia.Common.Bits.{bit_xor_cancel, bit_xor_comm, bit_xor_self, bit_xor_lt, bit_xor-zero}
use cannuccia.Crc.{crc_rounds, crc_byte, crc_bytes, crc16, initval}
use cannuccia.Crc.Shift.{crc_shift_lem, crc_rounds-lt, crc_rounds_injective}
use cannuccia.Crc.Linear.{crc_two_bytes}

pub crc_byte-lt : (c b : ℕ) → c < 2 ^ 16 → b < 256 → crc_byte c b < 2 ^ 16
unfolding crc_byte
crc_byte-lt c b h k =
    crc_rounds-lt 8 (bit_xor c (b * 2 ^ 8)) (bit_xor_lt 16 c (b * 2 ^ 8) h (omega arith))

pub crc_bytes-lt : (c : ℕ) (bs : List ℕ) → c < 2 ^ 16 → IsBytes bs → crc_bytes c bs < 2 ^ 16
unfolding crc_bytes
crc_bytes-lt c [] h k = h
crc_bytes-lt c (b ∷ bs) h k = crc_bytes-lt (crc_byte c b) bs (crc_byte-lt c b h k.0) k.1

crc_bytes-append : (c : ℕ) (xs ys : List ℕ) → crc_bytes c (xs ++ ys) ≡ crc_bytes (crc_bytes c xs) ys
unfolding crc_bytes
crc_bytes-append c [] ys = refl
crc_bytes-append c (x ∷ xs) ys = crc_bytes-append (crc_byte c x) xs ys

-- The checksum of a whole buffer has 16 bits without the final cast.
pub crc16_whole : (bs : List ℕ) → IsBytes bs → crc16 (length bs) bs ≡ crc_bytes initval bs
unfolding crc16
crc16_whole bs h = rw take-length (omega (arith, crc_bytes-lt initval bs (omega arith) h))

xor_left_injective : (c a b : ℕ) → bit_xor c a ≡ bit_xor c b → a ≡ b
xor_left_injective c a b e =
    ground (arith, bit_xor_comm c a, bit_xor_comm c b, bit_xor_cancel a c, bit_xor_cancel b c)

crc_byte_injective :
    (c d b : ℕ) → c < 2 ^ 16 → d < 2 ^ 16 → b < 256 → crc_byte c b ≡ crc_byte d b → c ≡ d
unfolding crc_byte
crc_byte_injective c d b hc hd hb e =
    let same =
      crc_rounds_injective 8 (bit_xor c (b * 2 ^ 8)) (bit_xor d (b * 2 ^ 8))
        (bit_xor_lt 16 c (b * 2 ^ 8) hc (omega arith))
        (bit_xor_lt 16 d (b * 2 ^ 8) hd (omega arith)) e in
    ground (arith, same, bit_xor_cancel c (b * 2 ^ 8), bit_xor_cancel d (b * 2 ^ 8))

-- The bytes that follow keep two different checksums apart.
crc_bytes_injective :
    (c d : ℕ) (bs : List ℕ)
    → c < 2 ^ 16
    → d < 2 ^ 16
    → IsBytes bs
    → crc_bytes c bs ≡ crc_bytes d bs
    → c ≡ d
unfolding crc_bytes
crc_bytes_injective c d [] hc hd h e = e
crc_bytes_injective c d (b ∷ bs) hc hd h e = crc_byte_injective c d b hc hd h.0 (
    crc_bytes_injective (crc_byte c b) (crc_byte d b) bs (crc_byte-lt c b hc h.0)
      (crc_byte-lt d b hd h.0) h.1 e)

word_injective :
    (c a b a' b' : ℕ)
    → c < 2 ^ 16
    → a < 256
    → b < 256
    → a' < 256
    → b' < 256
    → crc_byte (crc_byte c a) b ≡ crc_byte (crc_byte c a') b'
    → (a ≡ a') × (b ≡ b')
word_injective c a b a' b' hc ha hb ha' hb' e =
    let words =
      crc_rounds_injective 16 (bit_xor c (a * 2 ^ 8 + b)) (bit_xor c (a' * 2 ^ 8 + b'))
        (bit_xor_lt 16 c (a * 2 ^ 8 + b) hc (omega arith))
        (bit_xor_lt 16 c (a' * 2 ^ 8 + b') hc (omega arith))
        (sym (crc_two_bytes c a b hc ha hb) ∙ (e ∙ crc_two_bytes c a' b' hc ha' hb')) in
    let same = xor_left_injective c (a * 2 ^ 8 + b) (a' * 2 ^ 8 + b') words in
    (omega (arith, same), omega (arith, same))

-- A change that is confined to two neighbouring bytes always changes the checksum of the buffer.
pub crc16_detects_burst :
    (xs ys : List ℕ) (a b a' b' : ℕ)
    → IsBytes xs
    → IsBytes ys
    → IsBytes (a ∷ b ∷ [])
    → IsBytes (a' ∷ b' ∷ [])
    → crc16 (length (xs ++ a ∷ b ∷ ys)) (xs ++ a ∷ b ∷ ys)
      ≡ crc16 (length (xs ++ a' ∷ b' ∷ ys)) (xs ++ a' ∷ b' ∷ ys)
    → (a ≡ a') × (b ≡ b')
crc16_detects_burst xs ys a b a' b' hx hy h h' e =
    word_injective start a b a' b' start-lt h.0 h.1.0 h'.0 h'.1.0 (
      crc_bytes_injective (two a b) (two a' b') ys (two-lt a b h) (two-lt a' b' h') hy
        (sym (unrolled a b h) ∙ (e ∙ unrolled a' b' h')))
  where
    start : ℕ
    start = crc_bytes initval xs

    start-lt : start < 2 ^ 16
    start-lt = crc_bytes-lt initval xs (omega arith) hx

    two : ℕ → ℕ → ℕ
    two u v = crc_byte (crc_byte start u) v

    two-lt : (u v : ℕ) → IsBytes (u ∷ v ∷ []) → two u v < 2 ^ 16
    two-lt u v k = crc_byte-lt (crc_byte start u) v (crc_byte-lt start u start-lt k.0) k.1.0

    unrolled :
        (u v : ℕ)
        → IsBytes (u ∷ v ∷ [])
        → crc16 (length (xs ++ u ∷ v ∷ ys)) (xs ++ u ∷ v ∷ ys) ≡ crc_bytes (two u v) ys
    unrolled u v k =
        crc16_whole (xs ++ u ∷ v ∷ ys) (IsBytes-append xs (u ∷ v ∷ ys) hx (k.0, (k.1.0, hy)))
        ∙ (crc_bytes-append initval xs (u ∷ v ∷ ys) ∙ (unfold crc_bytes in refl))

crc_rounds_zero : (n : ℕ) → crc_rounds n 0 ≡ 0
unfolding crc_rounds
crc_rounds_zero zero = refl
crc_rounds_zero (suc n) = ground (arith, crc_rounds_zero n, crc_shift_lem 0 (omega arith))

-- A buffer that is followed by two bytes has checksum 0 exactly when these are its own checksum,
-- the high byte first.
pub crc16_residue_iff :
    (xs : List ℕ) (h l : ℕ)
    → IsBytes xs
    → h < 256
    → l < 256
    → (crc16 (length (xs ++ h ∷ l ∷ [])) (xs ++ h ∷ l ∷ []) ≡ 0)
      ↔ (crc16 (length xs) xs ≡ h * 256 + l)
crc16_residue_iff xs h l hx hh hl = (
  λ e. crc16_whole xs hx ∙ same (sym (unrolled) ∙ e),
  λ e. unrolled ∙ (ap (crc_rounds 16) (cleared e) ∙ crc_rounds_zero 16),
)
  where
    start : ℕ
    start = crc_bytes initval xs

    start-lt : start < 2 ^ 16
    start-lt = crc_bytes-lt initval xs (omega arith) hx

    word : ℕ
    word = h * 2 ^ 8 + l

    unrolled :
        crc16 (length (xs ++ h ∷ l ∷ [])) (xs ++ h ∷ l ∷ []) ≡ crc_rounds 16 (bit_xor start word)
    unrolled =
        crc16_whole (xs ++ h ∷ l ∷ []) (IsBytes-append xs (h ∷ l ∷ []) hx (hh, (hl, tt)))
        ∙ (crc_bytes-append initval xs (h ∷ l ∷ [])
            ∙ (unfold crc_bytes in crc_two_bytes start h l start-lt hh hl))

    cleared : crc16 (length xs) xs ≡ h * 256 + l → bit_xor start word ≡ 0
    cleared e = ap (λ (t : ℕ). bit_xor t word) (sym (crc16_whole xs hx) ∙ e) ∙ bit_xor_self word

    same : crc_rounds 16 (bit_xor start word) ≡ 0 → start ≡ h * 256 + l
    same e =
        let none =
          crc_rounds_injective 16 (bit_xor start word) 0
            (bit_xor_lt 16 start word start-lt (omega arith)) (omega arith)
            (e ∙ sym (crc_rounds_zero 16)) in
        ground (arith, none, bit_xor_cancel start word, bit_xor_comm 0 word, bit_xor-zero word)
