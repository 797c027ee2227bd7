-- ===== src/Pump/Transitions.antt =====
-- The graph of `state` of src/common/main.c.
use cannuccia.Common.{
  ℕ, ◌≡◌, refl, sym, inl, inr, Bool, true, false, Option, none, some, List, [], ◌∷◌, ◌++◌, arith,
  Bool-cases,
}
use cannuccia.Protocol.{
  Command, prog_req, prog_done, unlock, select_page, seek, write, check_writes, commit_writes,
  unknown, command,
}
use cannuccia.Port.{Port}
use cannuccia.Pump.Handlers.{
  State, idle, locked, unlocked, done, Pump, handle, on_prog_req, on_unlock, on_select_page,
  on_seek, on_commit_writes, fill_commit, is_unlocked,
}
use cannuccia.Pump.{Event, poll, timeout, step, run, receive, is_done, on_timeout}

-- What a round of the loop comes upon.
pub data Cause : Type 0 where
  silence time_out : Cause
  message : Command → Cause

-- A PROG_REQ does not leave the state at IDLE, and a PROG_DONE and the timeout leave it at DONE only.
abbrev pub MayStay : Cause → State → Type 0
MayStay time_out done = Unit {0}
MayStay time_out _ = ⊥
MayStay (message prog_done) done = Unit {0}
MayStay (message prog_done) _ = ⊥
MayStay (message prog_req) idle = ⊥
MayStay _ _ = Unit {0}

-- The moves that the comments at `state` name, each with what it is for, and staying.
pub data Moves : Cause → State → State → Type 0 where
  stays : {why : Cause} {st : State} → MayStay why st → Moves why st st
  requested : Moves (message prog_req) idle locked
  opened : Moves (message unlock) locked unlocked
  finished : {st : State} → Moves (message prog_done) st done
  timed_out : {st : State} → Moves time_out st done

may_stay : (why : Cause) (st : State) → is_done st ≡ true → MayStay why st
may_stay silence done h = tt
may_stay time_out done h = tt
may_stay (message prog_req) done h = tt
may_stay (message prog_done) done h = tt
may_stay (message c) done h = tt
may_stay why idle h = cc
may_stay why locked h = cc
may_stay why unlocked h = cc

module _ {D : Type 0} (port : Port D) (dev_id : ℕ) where
  select_page_keeps :
      (bytes : List ℕ) (s : Pump D) → (on_select_page port dev_id bytes s).state ≡ s.state
  unfolding on_select_page
  select_page_keeps bytes s = ground arith

  seek_keeps : (bytes : List ℕ) (s : Pump D) → (on_seek port dev_id bytes s).state ≡ s.state
  unfolding on_seek
  seek_keeps bytes s = ground arith

  fill_commit_keeps : (s : Pump D) (r : D × Bool) → (fill_commit port dev_id s r).state ≡ s.state
  unfolding fill_commit
  fill_commit_keeps s (d, false) = refl
  fill_commit_keeps s (d, true) =
      elim (Bool-cases (port.end_write (port.fill 0 port.page_size s.sel_page.writes d).0).1) [
        | inl ok ↦ rw ok refl
        | inr refused ↦ rw refused refl
      ]

  commit_keeps : (s : Pump D) → (on_commit_writes port dev_id s).state ≡ s.state
  unfolding on_commit_writes
  commit_keeps s = elim (Bool-cases (is_unlocked s.state)) [
    | inl may ↦ rw may (fill_commit_keeps s (port.begin_write s.sel_page.addr s.device))
    | inr may_not ↦ rw may_not refl
  ]

  on_prog_req-Moves :
      (st : State) (s : Pump D)
      → s.state ≡ st
      → Moves (message prog_req) st (on_prog_req port dev_id st s).state
  unfolding on_prog_req
  on_prog_req-Moves idle s e = requested
  on_prog_req-Moves locked s e = rw e (stays tt)
  on_prog_req-Moves unlocked s e = rw e (stays tt)
  on_prog_req-Moves done s e = rw e (stays tt)

  on_unlock-Moves :
      (st : State) (s : Pump D)
      → s.state ≡ st
      → is_done st ≡ false
      → Moves (message unlock) st (on_unlock port dev_id st s).state
  unfolding on_unlock
  on_unlock-Moves idle s e h = rw e (stays tt)
  on_unlock-Moves locked s e h = elim (Bool-cases (port.flash_unlock s.device).1) [
    | inl ok ↦ rw ok opened
    | inr refused ↦ rw (refused, e) (stays tt)
  ]
  on_unlock-Moves unlocked s e h = (stays tt)
  on_unlock-Moves done s e h = cc

  handle-Moves :
      (c : Command) (bytes : List ℕ) (s : Pump D)
      → is_done s.state ≡ false
      → Moves (message c) s.state (handle port dev_id c bytes s).state
  unfolding handle
  handle-Moves prog_req bytes s h = on_prog_req-Moves s.state s refl
  handle-Moves unlock bytes s h = on_unlock-Moves s.state s refl h
  handle-Moves select_page bytes s h = rw (select_page_keeps bytes s) (stays tt)
  handle-Moves seek bytes s h = rw (seek_keeps bytes s) (stays tt)
  handle-Moves write bytes s h = (stays tt)
  handle-Moves check_writes bytes s h = (stays tt)
  handle-Moves commit_writes bytes s h = rw (commit_keeps s) (stays tt)
  handle-Moves prog_done bytes s h = finished
  handle-Moves unknown bytes s h = (stays tt)

  received : D × Option (ℕ × List ℕ) → Cause
  received (d, none) = silence
  received (d, some (msg_id, bytes)) = message (command msg_id)

  -- What an event is in the state in which it comes.
  pub cause : Event → Pump D → Cause
  unfolding received
  cause timeout s = time_out
  cause poll s = received (port.can_recv 8 s.device)

  receive-Moves :
      (s : Pump D) (r : D × Option (ℕ × List ℕ))
      → is_done s.state ≡ false
      → Moves (received r) s.state (receive port dev_id s r).state
  unfolding receive received
  receive-Moves s (d, none) h = (stays tt)
  receive-Moves s (d, some (msg_id, bytes)) h =
      handle-Moves (command msg_id) bytes (record s { device = d }) h

  step-Moves :
      (e : Event) (s : Pump D)
      → is_done s.state ≡ false
      → Moves (cause e s) s.state (step port dev_id e s).state
  unfolding step on_timeout cause
  step-Moves timeout s h = timed_out
  step-Moves poll s h = receive-Moves s (port.can_recv 8 s.device) h

  run_over : (es : List Event) (s : Pump D) → is_done s.state ≡ true → run port dev_id es s ≡ s
  unfolding run
  run_over [] s over = refl
  run_over (e ∷ es) s over = rw over refl

  run-append :
      (es fs : List Event) (s : Pump D)
      → run port dev_id (es ++ fs) s ≡ run port dev_id fs (run port dev_id es s)
  unfolding run
  run-append [] fs s = refl
  run-append (e ∷ es) fs s = elim (Bool-cases (is_done s.state)) [
    | inl over ↦ rw over (sym (run_over fs s over))
    | inr waiting ↦ rw waiting (run-append es fs (step port dev_id e s))
  ]

  one_event-Moves :
      (e : Event) (t : Pump D) → Moves (cause e t) t.state (run port dev_id (e ∷ []) t).state
  unfolding run
  one_event-Moves e t = elim (Bool-cases (is_done t.state)) [
    | inl over ↦ rw over (stays (may_stay (cause e t) t.state over))
    | inr waiting ↦ rw waiting (step-Moves e t waiting)
  ]

  -- In every run, whatever has come before, each event moves the state along one edge of the graph
  -- at most, and for the reason that the edge has: from IDLE to LOCKED at a PROG_REQ, from LOCKED
  -- to UNLOCKED at an UNLOCK, and from any state to DONE at a PROG_DONE or at the timeout. A
  -- PROG_REQ does not leave the state at IDLE, and after a PROG_DONE or the timeout it is DONE.
  pub run-Moves :
      (es : List Event) (e : Event) (s : Pump D)
      → Moves
          (cause e (run port dev_id es s))
          (run port dev_id es s).state
          (run port dev_id (es ++ (e ∷ [])) s).state
  run-Moves es e s = rw (run-append es (e ∷ []) s) (one_event-Moves e (run port dev_id es s))
