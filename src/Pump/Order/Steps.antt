-- ===== src/Pump/Order/Steps.antt =====
-- What each message of the pump of src/common/main.c can lead to before the flash is unlocked.
use mathlib.Core.List.{Memᴰ}
use cannuccia.Common.{
  ℕ, ◌≡◌, ◌≢◌, refl, ◌∙◌, ◌⊎◌, inl, inr, Option, none, some, List, [], ◌∷◌, ◌++◌, length, ltb, ◌==◌,
  if◌then◌else◌, Bool-cases,
}
use cannuccia.Util.{read_u32_le}
use cannuccia.Protocol.{
  Command, prog_req, prog_done, unlock, select_page, seek, write, check_writes, commit_writes,
  unknown, command,
}
use cannuccia.Port.{Port}
use cannuccia.Pump.Handlers.{
  idle, locked, done, Pump, handle, on_select_page, on_seek, page_address,
}
use cannuccia.Pump.{Event, poll, timeout, step, is_done}

-- A PROG_REQ with an UNLOCK somewhere behind it.
pub data Unlocks : List Command → Type 0 where
  request : {cs : List Command} → Memᴰ unlock cs → Unlocks (prog_req ∷ cs)
  later : {c : Command} {cs : List Command} → Unlocks cs → Unlocks (c ∷ cs)

pub is_unlock_command : (c : Command) → (c ≡ unlock) ⊎ (c ≢ unlock)
is_unlock_command unlock = inl refl
is_unlock_command _ = inr (λ e. cc)

pub Unlocks-append : (xs : List Command) {ys : List Command} → Unlocks ys → Unlocks (xs ++ ys)
Unlocks-append [] u = u
Unlocks-append (x ∷ xs) u = later (Unlocks-append xs u)

module _ {D : Type 0} (port : Port D) (dev_id : ℕ) where
  abbrev pub heard : D × Option (ℕ × List ℕ) → List Command
  heard (d, none) = []
  heard (d, some (msg_id, bytes)) = command msg_id ∷ []

  abbrev pub heard_at : Event → Pump D → List Command
  heard_at poll s = heard (port.can_recv 8 s.device)
  heard_at timeout s = []

  -- The commands that a run takes from the bus, in order.
  unfoldable pub received : List Event → Pump D → List Command
  received [] s = []
  received (e ∷ es) s =
      let rest = received es (step port dev_id e s) in
      if is_done s.state then [] else heard_at e s ++ rest

  -- A property of the hardware that receiving, answering and stopping the timer keep.
  pub record IsQuiet (P : D → Type 0) : Type 0 where
    pub recv : (d : D) → P d → P (port.can_recv 8 d).0
    pub send : (id len : ℕ) (bytes : List ℕ) (d : D) → P d → P (port.can_send id len bytes d).0
    pub stop : (d : D) → P d → P (port.timer_stop d)

  -- What a command leads to from IDLE.
  pub data FromIdle (c : Command) (s : Pump D) : Type 0 where
    stays : s.state ≡ idle → FromIdle c s
    stops : s.state ≡ done → FromIdle c s
    locks : c ≡ prog_req → s.state ≡ locked → FromIdle c s

  -- What a command other than UNLOCK leads to from LOCKED.
  pub data FromLocked (s : Pump D) : Type 0 where
    stays : s.state ≡ locked → FromLocked s
    stops : s.state ≡ done → FromLocked s

  module _ (P : D → Type 0) (quiet : IsQuiet P) where
    select_page_quiet :
        (bytes : List ℕ) (s : Pump D)
        → P s.device
        → P (on_select_page port dev_id bytes s).device
          × ((on_select_page port dev_id bytes s).state ≡ s.state)
    unfolding on_select_page
    select_page_quiet bytes s p = elim (Bool-cases (length bytes == 4)) [
      | inl four ↦ elim (Bool-cases (port.page_writeable (page_address port dev_id bytes))) [
        | inl ok ↦ rw (four, ok) (quiet.send _ _ _ _ p, refl)
        | inr refused ↦ rw (four, refused) (p, refl)
      ]
      | inr other ↦ rw other (p, refl)
    ]

    seek_quiet :
        (bytes : List ℕ) (s : Pump D)
        → P s.device
        → P (on_seek port dev_id bytes s).device × ((on_seek port dev_id bytes s).state ≡ s.state)
    unfolding on_seek
    seek_quiet bytes s p = elim (Bool-cases (length bytes == 4)) [
      | inl four ↦ elim (Bool-cases (ltb (read_u32_le bytes) port.page_size)) [
        | inl ok ↦ rw (four, ok) (p, refl)
        | inr refused ↦ rw (four, refused) (p, refl)
      ]
      | inr other ↦ rw other (p, refl)
    ]

    pub handle_idle :
        (c : Command) (bytes : List ℕ) (s : Pump D)
        → s.state ≡ idle
        → P s.device
        → P (handle port dev_id c bytes s).device × FromIdle c (handle port dev_id c bytes s)
    unfolding handle
    handle_idle prog_req bytes s e p = rw e (quiet.send _ _ _ _ (quiet.stop _ p), locks refl refl)
    handle_idle unlock bytes s e p = rw e (p, stays refl)
    handle_idle select_page bytes s e p =
        let (kept, same) = select_page_quiet bytes s p in (kept, stays (same ∙ e))
    handle_idle seek bytes s e p =
        let (kept, same) = seek_quiet bytes s p in (kept, stays (same ∙ e))
    handle_idle write bytes s e p = (p, stays e)
    handle_idle check_writes bytes s e p = (quiet.send _ _ _ _ p, stays e)
    handle_idle commit_writes bytes s e p = rw e (p, stays refl)
    handle_idle prog_done bytes s e p = (quiet.send _ _ _ _ p, stops refl)
    handle_idle unknown bytes s e p = (p, stays e)

    pub handle_locked :
        (c : Command) (bytes : List ℕ) (s : Pump D)
        → c ≢ unlock
        → s.state ≡ locked
        → P s.device
        → P (handle port dev_id c bytes s).device × FromLocked (handle port dev_id c bytes s)
    unfolding handle
    handle_locked prog_req bytes s other e p = rw e (quiet.send _ _ _ _ p, stays refl)
    handle_locked unlock bytes s other e p = absurd (other refl)
    handle_locked select_page bytes s other e p =
        let (kept, same) = select_page_quiet bytes s p in (kept, stays (same ∙ e))
    handle_locked seek bytes s other e p =
        let (kept, same) = seek_quiet bytes s p in (kept, stays (same ∙ e))
    handle_locked write bytes s other e p = (p, stays e)
    handle_locked check_writes bytes s other e p = (quiet.send _ _ _ _ p, stays e)
    handle_locked commit_writes bytes s other e p = rw e (p, stays refl)
    handle_locked prog_done bytes s other e p = (quiet.send _ _ _ _ p, stops refl)
    handle_locked unknown bytes s other e p = (p, stays e)
