-- ===== src/Pump/Guards/Strays.antt =====
-- The pages that the pump of src/common/main.c is asked to select during a run, and what becomes of
-- the hardware where they are all among the chosen ones.
use mathlib.Core.List.Memᴰ
use mathlib.Core.List.{Memᴰ}
use cannuccia.Common.{
  ℕ, ◌+◌, set, ◌≡◌, refl, ◌⊎◌, inl, inr, Bool, true, false, Option, none, some, List, [], ◌∷◌, ◌++◌,
  length, ◌==◌, if◌then◌else◌, arith, Bool-cases,
}
use cannuccia.Protocol.{
  Command, prog_req, prog_done, unlock, select_page, seek, write, check_writes, commit_writes,
  unknown, command,
}
use cannuccia.Port.{Port}
use cannuccia.Pump.Handlers.{Page, Pump, write_bytes, handle, on_select_page, page_address}
use cannuccia.Pump.{Event, poll, timeout, step, run, receive, is_done}
use cannuccia.Pump.Invariant.{IsValid, GivesBytes, step-IsValid}
use cannuccia.Pump.Guards.Calls.{IsKept, handle-IsKept}

addr-write_bytes : (size : ℕ) (bs : List ℕ) (p : Page) → (write_bytes size bs p).addr ≡ p.addr
unfolding write_bytes
addr-write_bytes size [] p = refl
addr-write_bytes size (b ∷ bs) p = ground (
  arith,
  addr-write_bytes size bs
      (record p { write_offset = p.write_offset + 1; writes = set p.writes p.write_offset b }),
)

module _ {D : Type 0} (port : Port D) (dev_id : ℕ) where
  -- The page that a message names, if it is a SELECT_PAGE.
  abbrev pub named : Command → List ℕ → List ℕ
  named select_page bytes = page_address port dev_id bytes ∷ []
  named _ bytes = []

  abbrev pub named_in : D × Option (ℕ × List ℕ) → List ℕ
  named_in (d, none) = []
  named_in (d, some (msg_id, bytes)) = named (command msg_id) bytes

  abbrev pub named_at : Event → Pump D → List ℕ
  named_at poll s = named_in (port.can_recv 8 s.device)
  named_at timeout s = []

  -- The pages that the SELECT_PAGEs of a run name, in order.
  unfoldable pub asked : List Event → Pump D → List ℕ
  asked [] s = []
  asked (e ∷ es) s =
      let rest = asked es (step port dev_id e s) in
      if is_done s.state then [] else named_at e s ++ rest

  named_page :
      (c : Command) (bytes : List ℕ) (a : ℕ)
      → Memᴰ a (named c bytes)
      → (sent : List ℕ) × (a ≡ page_address port dev_id sent)
  named_page select_page bytes a m = (bytes, Memᴰ.eq_of_singleton m)
  named_page prog_req bytes a m = elim m [ ]
  named_page prog_done bytes a m = elim m [ ]
  named_page unlock bytes a m = elim m [ ]
  named_page seek bytes a m = elim m [ ]
  named_page write bytes a m = elim m [ ]
  named_page check_writes bytes a m = elim m [ ]
  named_page commit_writes bytes a m = elim m [ ]
  named_page unknown bytes a m = elim m [ ]

  named_in_page :
      (r : D × Option (ℕ × List ℕ)) (a : ℕ)
      → Memᴰ a (named_in r)
      → (sent : List ℕ) × (a ≡ page_address port dev_id sent)
  named_in_page (d, none) a m = elim m [ ]
  named_in_page (d, some (msg_id, bytes)) a m = named_page (command msg_id) bytes a m

  named_at_page :
      (e : Event) (s : Pump D) (a : ℕ)
      → Memᴰ a (named_at e s)
      → (sent : List ℕ) × (a ≡ page_address port dev_id sent)
  named_at_page poll s a m = named_in_page (port.can_recv 8 s.device) a m
  named_at_page timeout s a m = elim m [ ]

  -- A page that is asked for comes from four bytes of a message.
  pub asked_page :
      (es : List Event) (s : Pump D) (a : ℕ)
      → Memᴰ a (asked es s)
      → (sent : List ℕ) × (a ≡ page_address port dev_id sent)
  unfolding asked
  asked_page [] s a m = elim m [ ]
  asked_page (e ∷ es) s a m = elim (Bool-cases (is_done s.state)) [
    | inl over ↦ absurd (Memᴰ.not-nil (rw over at m))
    | inr waiting ↦ elim (Memᴰ.append_cases (named_at e s) (rw waiting at m)) [
      | inl now ↦ named_at_page e s a now
      | inr later ↦ asked_page es (step port dev_id e s) a later
    ]
  ]

  module _ (chosen : ℕ → Bool) where
    -- Among the named pages is one that `cnFlashPageWriteable` accepts and that is not chosen.
    abbrev pub Strays : List ℕ → Type 0
    Strays pages = (a : ℕ) × Memᴰ a pages × (port.page_writeable a ≡ true) × (chosen a ≡ false)

    abbrev pub Chosen : ℕ → Type 0
    Chosen a = chosen a ≡ true

    abbrev IsChosen : Pump D → Type 0
    IsChosen s = (s.sel_page.addr ≡ 0) ⊎ Chosen s.sel_page.addr

    select-IsChosen :
        (bytes : List ℕ) (s : Pump D)
        → IsChosen s
        → IsChosen (on_select_page port dev_id bytes s) ⊎ Strays (named select_page bytes)
    unfolding on_select_page
    select-IsChosen bytes s v = elim (Bool-cases (length bytes == 4)) [
      | inl four ↦ elim (Bool-cases (port.page_writeable (page_address port dev_id bytes))) [
        | inl ok ↦ elim (Bool-cases (chosen (page_address port dev_id bytes))) [
          | inl good ↦ rw (four, ok) (inl (inr good))
          | inr bad ↦ inr (page_address port dev_id bytes, Memᴰ.head refl, ok, bad)
        ]
        | inr refused ↦ rw (four, refused) (inl v)
      ]
      | inr other ↦ rw other (inl v)
    ]

    handle-IsChosen :
        (c : Command) (bytes : List ℕ) (s : Pump D)
        → IsChosen s
        → IsChosen (handle port dev_id c bytes s) ⊎ Strays (named c bytes)
    unfolding handle
    handle-IsChosen select_page bytes s v = select-IsChosen bytes s v
    handle-IsChosen write bytes s v = inl (rw (addr-write_bytes port.page_size bytes s.sel_page) v)
    handle-IsChosen prog_req bytes s v = inl (ground arith)
    handle-IsChosen unlock bytes s v = inl (ground arith)
    handle-IsChosen seek bytes s v = inl (ground arith)
    handle-IsChosen commit_writes bytes s v = inl (ground arith)
    handle-IsChosen check_writes bytes s v = inl v
    handle-IsChosen prog_done bytes s v = inl v
    handle-IsChosen unknown bytes s v = inl v

    module _ (P : D → Type 0) (kept : IsKept port Chosen P) where
      -- What a round keeps.
      abbrev Keeps : Pump D → Type 0
      Keeps s = P s.device × IsChosen s

      receive-Keeps :
          (s : Pump D) (r : D × Option (ℕ × List ℕ))
          → length s.sel_page.writes ≡ port.page_size
          → IsChosen s
          → P r.0
          → Keeps (receive port dev_id s r) ⊎ Strays (named_in r)
      unfolding receive
      receive-Keeps s (d, none) whole v p = inl (p, v)
      receive-Keeps s (d, some (msg_id, bytes)) whole v p =
          let heard : Pump D = record s { device = d } in
          elim (handle-IsChosen (command msg_id) bytes heard v) [
            | inl next ↦ inl (
              handle-IsKept port Chosen P kept dev_id (command msg_id) bytes heard whole v p,
              next,
            )
            | inr stray ↦ inr stray
          ]

      step-Keeps :
          (e : Event) (s : Pump D)
          → length s.sel_page.writes ≡ port.page_size
          → Keeps s
          → Keeps (step port dev_id e s) ⊎ Strays (named_at e s)
      unfolding step
      step-Keeps timeout s whole (p, v) = inl (p, v)
      step-Keeps poll s whole (p, v) =
          receive-Keeps s (port.can_recv 8 s.device) whole v (kept.recv s.device p)

      -- What the calls for chosen pages keep holds at the end of a run, unless the run has been
      -- asked for a page that `cnFlashPageWriteable` accepts and that is not chosen.
      pub run_kept_or_Strays :
          GivesBytes port
          → (es : List Event) (s : Pump D) → IsValid port s.sel_page
          → IsChosen s
          → P s.device
          → P (run port dev_id es s).device ⊎ Strays (asked es s)
      unfolding run asked
      run_kept_or_Strays gives [] s valid v p = inl p
      run_kept_or_Strays gives (e ∷ es) s valid v p = elim (Bool-cases (is_done s.state)) [
        | inl over ↦ rw over (inl p)
        | inr waiting ↦ rw waiting (elim (step-Keeps e s valid.whole (p, v)) [
          | inl (q, w) ↦
              elim (run_kept_or_Strays gives es (step port dev_id e s)
                (step-IsValid port gives dev_id e s valid) w q) [
                  | inl safe ↦ inl safe
                  | inr (a, m, ok, bad) ↦ inr (a, Memᴰ.append_right (named_at e s) m, ok, bad)
                ]
          | inr (a, m, ok, bad) ↦
              inr (a, Memᴰ.append_left (asked es (step port dev_id e s)) m, ok, bad)
        ])
      ]
