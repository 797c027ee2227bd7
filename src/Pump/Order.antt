-- ===== src/Pump/Order.antt =====
-- When the pump of src/common/main.c first uses the flash driver.
pub mod Steps
use mathlib.Core.List.Memᴰ
use mathlib.Core.List.{Memᴰ}
use cannuccia.Common.{
  ℕ, ◌≡◌, ◌≢◌, refl, sym, ap, ◌∙◌, ◌⊎◌, inl, inr, Bool, true, false, Option, none, some, List, [],
  ◌∷◌, ◌++◌, length, ltb, ◌==◌, if◌then◌else◌, arith, Bool-cases,
}
use cannuccia.Util.{read_u32_le}
use cannuccia.Protocol.{
  Command, prog_req, prog_done, unlock, select_page, seek, write, check_writes, commit_writes,
  unknown, command,
}
use cannuccia.Port.{Port}
use cannuccia.Pump.Handlers.{
  State, idle, locked, unlocked, done, Page, Pump, handle, on_prog_req, on_unlock, on_select_page,
  on_seek, on_commit_writes, page_address,
}
use cannuccia.Pump.{Event, poll, timeout, step, run, boot, receive, is_done}
use Steps.{
  Unlocks, request, later, is_unlock_command, Unlocks-append, heard, heard_at, received, IsQuiet,
  FromIdle, FromLocked, stays, stops, locks, handle_idle, handle_locked,
}

module _ {D : Type 0} (port : Port D) (dev_id : ℕ) where
  module _ (P : D → Type 0) (quiet : IsQuiet port dev_id P) where
    run_done :
        (es : List Event) (s : Pump D)
        → s.state ≡ done
        → P s.device
        → P (run port dev_id es s).device
    unfolding run
    run_done [] s e p = p
    run_done (ev ∷ es) s e p = rw e p

    receive_locked :
        (s : Pump D) (r : D × Option (ℕ × List ℕ))
        → s.state ≡ locked
        → P r.0
        → Memᴰ unlock (heard port dev_id r)
          ⊎ (P (receive port dev_id s r).device × FromLocked port dev_id (receive port dev_id s r))
    unfolding receive
    receive_locked s (d, none) e p = inr (p, stays e)
    receive_locked s (d, some (msg_id, bytes)) e p = elim (is_unlock_command (command msg_id)) [
      | inl asks ↦ inl (Memᴰ.head (sym asks))
      | inr other ↦ inr (
          handle_locked port dev_id P quiet (command msg_id) bytes (record s { device = d }) other e
            p)
    ]

    step_locked :
        (ev : Event) (s : Pump D)
        → s.state ≡ locked
        → P s.device
        → Memᴰ unlock (heard_at port dev_id ev s)
          ⊎ (P (step port dev_id ev s).device × FromLocked port dev_id (step port dev_id ev s))
    unfolding step
    step_locked timeout s e p = inr (p, stops refl)
    step_locked poll s e p = receive_locked s (port.can_recv 8 s.device) e (quiet.recv s.device p)

    run_locked :
        (es : List Event) (s : Pump D)
        → s.state ≡ locked
        → P s.device
        → P (run port dev_id es s).device ⊎ Memᴰ unlock (received port dev_id es s)
    unfolding run received
    run_locked [] s e p = inl p
    run_locked (ev ∷ es) s e p =
        let next = step port dev_id ev s in
        let waiting : is_done s.state ≡ false = ap is_done e in
        rw waiting (elim (step_locked ev s e p) [
          | inl m ↦ inr (Memᴰ.append_left (received port dev_id es next) m)
          | inr (q, stays same) ↦ elim (run_locked es next same q) [
            | inl kept ↦ inl kept
            | inr m ↦ inr (Memᴰ.append_right (heard_at port dev_id ev s) m)
          ]
          | inr (q, stops ended) ↦ inl (run_done es next ended q)
        ])

    receive_idle :
        (s : Pump D) (r : D × Option (ℕ × List ℕ))
        → s.state ≡ idle
        → P r.0
        → P (receive port dev_id s r).device
          × ((c : Command) × FromIdle port dev_id c (receive port dev_id s r)
              × (c ≡ prog_req → heard port dev_id r ≡ prog_req ∷ []))
    unfolding receive
    receive_idle s (d, none) e p = (p, (unknown, stays e, λ q. cc))
    receive_idle s (d, some (msg_id, bytes)) e p =
        let (q, from) =
          handle_idle port dev_id P quiet (command msg_id) bytes (record s { device = d }) e p in
        (q, (command msg_id, from, λ asks. rw asks))

    step_idle :
        (ev : Event) (s : Pump D)
        → s.state ≡ idle
        → P s.device
        → P (step port dev_id ev s).device
          × ((c : Command) × FromIdle port dev_id c (step port dev_id ev s)
              × (c ≡ prog_req → heard_at port dev_id ev s ≡ prog_req ∷ []))
    unfolding step
    step_idle timeout s e p = (p, (unknown, stops refl, λ q. cc))
    step_idle poll s e p = receive_idle s (port.can_recv 8 s.device) e (quiet.recv s.device p)

    run_idle :
        (es : List Event) (s : Pump D)
        → s.state ≡ idle
        → P s.device
        → P (run port dev_id es s).device ⊎ Unlocks (received port dev_id es s)
    unfolding run received
    run_idle [] s e p = inl p
    run_idle (ev ∷ es) s e p =
        let next = step port dev_id ev s in
        let waiting : is_done s.state ≡ false = ap is_done e in
        let (q, (c, from, asked)) = step_idle ev s e p in
        rw waiting (elim from [
          | stays same ↦ elim (run_idle es next same q) [
            | inl kept ↦ inl kept
            | inr u ↦ inr (Unlocks-append (heard_at port dev_id ev s) u)
          ]
          | stops ended ↦ inl (run_done es next ended q)
          | locks asks same ↦ elim (run_locked es next same q) [
            | inl kept ↦ inl kept
            | inr m ↦ inr (rw (asked asks) (request m))
          ]
        ])

    -- In a run from `main`'s start, a property of the hardware that receiving, answering and
    -- stopping the timer keep still holds, unless a PROG_REQ and later an UNLOCK have arrived.
    pub quiet_until_unlock :
        (es : List Event) (d : D)
        → P (boot port d).device
        → P (run port dev_id es (boot port d)).device
          ⊎ Unlocks (received port dev_id es (boot port d))
    quiet_until_unlock es d p = run_idle es (boot port d) (unfold boot in refl) p
