-- ===== src/Pump/Upload.antt =====
-- A whole page sent by one SEEK and any number of WRITEs (src/common/main.c).
use mathlib.Core.List.{append-nil, flatten}
use native.Mathlib.Nat.{zero-add}
use cannuccia.Common.{
  ℕ, ◌+◌, ◌≤◌, ◌<◌, ◌≡◌, refl, List, [], ◌∷◌, ◌++◌, length, take, drop, take-length, drop_all,
  lt→ltb, arith,
}
use cannuccia.Util.Endian.{read_u32_le_lem}
use cannuccia.Protocol.{seek, write}
use cannuccia.Port.{Port}
use cannuccia.Pump.Handlers.{Page, Pump, write_bytes, handle}
use cannuccia.Pump.Writes.{write_bytes-append, write_bytes_lem, stored}

-- As many bytes as the buffer holds replace all of it.
replaced :
    (n : ℕ) (bs ws : List ℕ) → n ≡ length bs → length ws ≤ n → take n bs ++ drop (0 + n) ws ≡ bs
replaced n bs ws e h =
    rw (zero-add, e) (rw (take-length, drop_all (length bs) ws (omega arith)) (append-nil bs))

module _ {D : Type 0} (port : Port D) (dev_id : ℕ) where
  open port use {page_size}

  -- The pump after a WRITE for each of the payloads.
  pub write_all : List (List ℕ) → Pump D → Pump D
  write_all [] s = s
  write_all (bytes ∷ rest) s = write_all rest (handle port dev_id write bytes s)

  -- The pump after a SEEK to the start of the page and the WRITEs.
  pub upload : List (List ℕ) → Pump D → Pump D
  upload payloads s = write_all payloads (handle port dev_id seek (0 ∷ 0 ∷ 0 ∷ 0 ∷ []) s)

  write_all_lem :
      (payloads : List (List ℕ)) (s : Pump D)
      → write_all payloads s
        ≡ record s { sel_page = write_bytes page_size (flatten payloads) s.sel_page }
  unfolding write_all handle flatten
  write_all_lem [] s = unfold write_bytes in refl
  write_all_lem (bytes ∷ rest) s =
      rw (write_bytes-append page_size bytes (flatten rest) s.sel_page)
        (write_all_lem rest (record s { sel_page = write_bytes page_size bytes s.sel_page }))

  -- However the bytes of a page are split into WRITEs, after a SEEK to 0 the buffer holds them in
  -- order, and only the buffer and the write head have changed. This is so whether or not a page is
  -- selected, unlike what docs/CANnuccia.xlsx says of a SEEK and a WRITE without a SELECT_PAGE.
  pub upload_lem :
      (payloads : List (List ℕ)) (s : Pump D)
      → 0 < page_size
      → length s.sel_page.writes ≡ page_size
      → length (flatten payloads) ≡ page_size
      → upload payloads s ≡ record s {
        sel_page = record {
          addr = s.sel_page.addr;
          write_offset = page_size;
          writes = flatten payloads;
        };
      }
  unfolding upload handle
  upload_lem payloads s pos e whole =
      let start : Page = record (s.sel_page) { write_offset = 0 } in
      let stored_all : stored page_size (flatten payloads) start ≡ page_size = omega arith in
      rw (read_u32_le_lem 0 0 0 0 (omega arith) (omega arith) (omega arith) (omega arith)) (
        rw (lt→ltb 0 page_size pos) (
          rw (write_all_lem payloads (record s { sel_page = start })) (
            rw (write_bytes_lem page_size (flatten payloads) start e (omega arith)) (
              ground (
                arith,
                replaced (stored page_size (flatten payloads) start) (flatten payloads)
                    s.sel_page.writes (omega arith) (omega arith),
              )))))
