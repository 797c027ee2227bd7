-- ===== src/Pump/Ending.antt =====
-- When `main` of src/common/main.c goes on to the user program, and how its state moves.
use mathlib.Core.List.{Memᴰ}
use cannuccia.Common.{ℕ, ◌≡◌, refl, sym, inl, inr, true, false, some, List, [], ◌∷◌, Bool-cases}
use cannuccia.Protocol.{prog_done, command}
use cannuccia.Port.{Port}
use cannuccia.Pump.Handlers.{Pump, handle}
use cannuccia.Pump.{
  Event, poll, timeout, step, run, boot, receive, on_timeout, is_done, main, leave, dev_id_of,
}

module _ {D : Type 0} (port : Port D) where
  run-done :
      (dev_id : ℕ) (es : List Event) (s : Pump D)
      → is_done s.state ≡ true
      → run port dev_id es s ≡ s
  unfolding run
  run-done dev_id [] s h = refl
  run-done dev_id (e ∷ es) s h = rw h

  timeout_ends :
      (dev_id : ℕ) (es : List Event) (s : Pump D)
      → Memᴰ timeout es
      → is_done (run port dev_id es s).state ≡ true
  unfolding run step on_timeout
  timeout_ends dev_id [] s m = elim m [ ]
  timeout_ends dev_id (e ∷ es) s m = elim (Bool-cases (is_done s.state)) [
    | inl ended ↦ rw ended ended
    | inr waiting ↦ rw waiting (elim m [
      | Memᴰ.head struck ↦ rw (sym struck) (rw (run-done dev_id es (on_timeout port s) refl))
      | Memᴰ.tail later ↦ timeout_ends dev_id es (step port dev_id e s) later
    ])
  ]

  -- Once the timeout has struck, whatever has arrived before and after, `main` has left the loop
  -- and gone on to the user program, from the state that the loop ended in.
  pub main-timeout :
      (d : D) (es : List Event)
      → Memᴰ timeout es
      → main port d es ≡ some (leave port (run port (dev_id_of port d) es (boot port d)))
  unfolding main
  main-timeout d es m = rw (timeout_ends (dev_id_of port d) es (boot port d) m)

  -- A PROG_DONE that is received before the loop has ended ends it: whatever events follow, the
  -- run is what the answer to PROG_DONE leaves.
  pub run-prog_done :
      (dev_id msg_id : ℕ) (bytes : List ℕ) (es : List Event) (s : Pump D) (d : D)
      → command msg_id ≡ prog_done
      → port.can_recv 8 s.device ≡ (d, some (msg_id, bytes))
      → is_done s.state ≡ false
      → run port dev_id (poll ∷ es) s ≡ handle port dev_id prog_done bytes (record s { device = d })
  unfolding run step receive handle
  run-prog_done dev_id msg_id bytes es s d asks arrives waiting =
      rw waiting (rw arrives (rw asks (run-done dev_id es _ refl)))
