-- ===== src/Pump/Writes.antt =====
-- The page buffer of src/common/main.c under SEEK and WRITE.
use mathlib.Core.List.{append_assoc}
use native.Mathlib.Nat.{add-zero}
use cannuccia.Common.{
  ℕ, zero, suc, ◌+◌, ◌-◌, ◌≤◌, ◌<◌, min, ◌≡◌, refl, ◌∙◌, Bool-cases, inl, inr, List, [], ◌∷◌, ◌++◌,
  length, set, take, drop, length-set, take-set, drop-set, take-append-drop, ltb, arith,
}
use cannuccia.Pump.Handlers.{Page, write_bytes}

-- As many bytes as there is room for.
abbrev pub stored : ℕ → List ℕ → Page → ℕ
stored size bs p = min (length bs) (size - p.write_offset)

abbrev pub spliced : ℕ → List ℕ → Page → List ℕ
spliced size bs p =
    take p.write_offset p.writes
    ++ (take (stored size bs p) bs ++ drop (p.write_offset + stored size bs p) p.writes)

module _ (size : ℕ) where
  write_full : (bs : List ℕ) (p : Page) → size ≤ p.write_offset → write_bytes size bs p ≡ p
  unfolding write_bytes
  write_full [] p h = refl
  write_full (b ∷ bs) p h = ground arith

  -- One WRITE of `xs ++ ys` and a WRITE of `xs` followed by one of `ys` have the same effect.
  pub write_bytes-append :
      (xs ys : List ℕ) (p : Page)
      → write_bytes size (xs ++ ys) p ≡ write_bytes size ys (write_bytes size xs p)
  unfolding write_bytes
  write_bytes-append [] ys p = refl
  write_bytes-append (x ∷ xs) ys p = ground (
    arith,
    write_bytes-append xs ys
        (record p { write_offset = p.write_offset + 1; writes = set p.writes p.write_offset x }),
    write_full ys p,
  )

  -- Nothing is stored.
  nothing_stored :
      (k : ℕ) (bs : List ℕ) (p : Page)
      → k ≡ 0
      → p ≡ record p {
        write_offset = p.write_offset + k;
        writes = take p.write_offset p.writes ++ (take k bs ++ drop (p.write_offset + k) p.writes);
      }
  nothing_stored zero bs p e = rw (add-zero, take-append-drop p.write_offset p.writes)
  nothing_stored (suc k) bs p e = absurd (omega arith)

  -- The first byte is stored, and then the others behind it.
  splice_step :
      (n k b : ℕ) (bs ws : List ℕ)
      → n < length ws
      → take (n + 1) (set ws n b) ++ (take k bs ++ drop (n + 1 + k) (set ws n b))
        ≡ take n ws ++ (take (suc k) (b ∷ bs) ++ drop (n + suc k) ws)
  splice_step n k b bs ws h =
      let reassociate : n + suc k ≡ n + 1 + k = omega arith in
      rw (reassociate, take-set n ws b h, drop-set n (n + 1 + k) ws b (omega arith), append_assoc)

  -- A WRITE stores the bytes that fit at the write head, moves the head past them, drops the
  -- others, and leaves the rest of the buffer alone. It does so whether or not a page is selected,
  -- and also where not all bytes fit, unlike what docs/CANnuccia.xlsx says of invalid WRITEs.
  pub write_bytes_lem :
      (bs : List ℕ) (p : Page)
      → length p.writes ≡ size
      → p.write_offset ≤ size
      → write_bytes size bs p
        ≡ record p { write_offset = p.write_offset + stored size bs p; writes = spliced size bs p }
  write_bytes_lem [] p e h =
      unfold write_bytes in nothing_stored (stored size [] p) [] p (omega arith)
  write_bytes_lem (b ∷ bs) p e h = elim (Bool-cases (ltb p.write_offset size)) [
    | inl room ↦
        let q : Page = record p {
          write_offset = p.write_offset + 1;
          writes = set p.writes p.write_offset b;
        } in
        let below : p.write_offset < size = ground arith in
        let count : stored size (b ∷ bs) p ≡ suc (stored size bs q) = omega arith in
        let enters : write_bytes size (b ∷ bs) p ≡ write_bytes size bs q =
          unfold write_bytes in rw room in
        rw
          (
            enters,
            write_bytes_lem bs q (length-set p.writes p.write_offset b ∙ e) (omega arith),
            count,
          )
          (ground
            (arith, splice_step p.write_offset (stored size bs q) b bs p.writes (omega arith)))
    | inr full ↦
        write_full (b ∷ bs) p (ground arith)
        ∙ nothing_stored (stored size (b ∷ bs) p) (b ∷ bs) p (ground arith)
  ]
