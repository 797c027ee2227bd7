-- ===== src/Pump/Invariant.antt =====
-- What holds of the pump of src/common/main.c between two rounds of its loop.
use cannuccia.Common.{
  ℕ, ◌+◌, ◌≤◌, ◌≡◌, refl, ◌⊎◌, inl, inr, ◌∙◌, true, Option, none, some, List, [], ◌∷◌, length, set,
  length-set, length-replicate, IsBytes, IsBytes-set, IsBytes-replicate, ltb, arith, Bool-cases,
}
use cannuccia.Protocol.{Command, write, command}
use cannuccia.Port.{Port}
use cannuccia.Pump.Handlers.{Page, Pump, write_bytes, handle}
use cannuccia.Pump.{Event, poll, timeout, step, run, boot, receive, is_done}

module _ {D : Type 0} (port : Port D) where
  open port use {page_size, page_writeable}

  -- The selected page is none (address 0) or one that `cnFlashPageWriteable` accepts, the buffer
  -- holds a page of bytes, and the write head is in it or just behind it.
  pub record IsValid (p : Page) : Type 0 where
    pub selected : (p.addr ≡ 0) ⊎ (page_writeable p.addr ≡ true)
    pub whole : length p.writes ≡ page_size
    pub head_within : p.write_offset ≤ page_size
    pub buffer_bytes : IsBytes p.writes

  pub write_bytes-IsValid :
      (bs : List ℕ) (p : Page) → IsBytes bs → IsValid p → IsValid (write_bytes page_size bs p)
  unfolding write_bytes
  write_bytes-IsValid [] p h v = v
  write_bytes-IsValid (b ∷ bs) p h v = elim (Bool-cases (ltb p.write_offset page_size)) [
    | inl room ↦ rw room (
        write_bytes-IsValid bs
          (record p { write_offset = p.write_offset + 1; writes = set p.writes p.write_offset b })
          h.1
          (record {
            selected = v.selected;
            whole = length-set p.writes p.write_offset b ∙ v.whole;
            head_within = ground arith;
            buffer_bytes = IsBytes-set p.writes p.write_offset b h.0 v.buffer_bytes;
          }))
    | inr full ↦ rw full v
  ]

  -- Every message keeps the page and the buffer well formed.
  pub handle-IsValid :
      (dev_id : ℕ) (c : Command) (bytes : List ℕ) (s : Pump D)
      → IsBytes bytes
      → IsValid s.sel_page
      → IsValid (handle port dev_id c bytes s).sel_page
  unfolding handle
  handle-IsValid dev_id write bytes s h v = write_bytes-IsValid bytes s.sel_page h v
  handle-IsValid dev_id c bytes s h v = ground arith

  -- What `cnCANRecv` gives is bytes.
  abbrev pub GivesBytes : Type 0
  GivesBytes =
      (d : D) (msg_id : ℕ) (bytes : List ℕ)
      → (port.can_recv 8 d).1 ≡ some (msg_id, bytes)
      → IsBytes bytes

  receive-IsValid :
      (dev_id : ℕ) (s : Pump D) (r : D × Option (ℕ × List ℕ))
      → ((msg_id : ℕ) (bytes : List ℕ) → r.1 ≡ some (msg_id, bytes) → IsBytes bytes)
      → IsValid s.sel_page
      → IsValid (receive port dev_id s r).sel_page
  unfolding receive
  receive-IsValid dev_id s (d, none) h v = v
  receive-IsValid dev_id s (d, some (msg_id, bytes)) h v =
      handle-IsValid dev_id (command msg_id) bytes (record s { device = d }) (h msg_id bytes refl) v

  module _ (gives_bytes : GivesBytes) where
    pub step-IsValid :
        (dev_id : ℕ) (e : Event) (s : Pump D)
        → IsValid s.sel_page
        → IsValid (step port dev_id e s).sel_page
    unfolding step
    step-IsValid dev_id timeout s v = v
    step-IsValid dev_id poll s v =
        receive-IsValid dev_id s (port.can_recv 8 s.device) (gives_bytes s.device) v

    pub boot-IsValid : (d : D) → IsValid (boot port d).sel_page
    unfolding boot
    boot-IsValid d = record {
      selected = inl refl;
      whole = length-replicate page_size 0;
      head_within = omega arith;
      buffer_bytes = IsBytes-replicate page_size;
    }

    run-IsValid :
        (dev_id : ℕ) (es : List Event) (s : Pump D)
        → IsValid s.sel_page
        → IsValid (run port dev_id es s).sel_page
    unfolding run
    run-IsValid dev_id [] s v = v
    run-IsValid dev_id (e ∷ es) s v = elim (Bool-cases (is_done s.state)) [
      | inl ended ↦ rw ended v
      | inr waiting ↦
          rw waiting (run-IsValid dev_id es (step port dev_id e s) (step-IsValid dev_id e s v))
    ]

    -- Whatever messages arrive and whenever the timeout strikes, with a bus that gives bytes, the
    -- selected page of the pump that `main` has set up is none or a writeable one, its buffer is a
    -- page of bytes, and the write head is in it or just behind it.
    pub boot-run-IsValid :
        (dev_id : ℕ) (es : List Event) (d : D) → IsValid (run port dev_id es (boot port d)).sel_page
    boot-run-IsValid dev_id es d = run-IsValid dev_id es (boot port d) (boot-IsValid d)
