-- ===== src/Tests/Runs.antt =====
-- The theorems on the pump of src/common/main.c, on the bench.
use mathlib.Core.List.{flatten}
use cannuccia.Common.{
  ◌++◌, ℕ, ◌<◌, ◌≡◌, refl, sym, ap, ◌⊎◌, Option, none, some, List, [], ◌∷◌, All, IsBytes, arith,
}
use cannuccia.Pump.Handlers.{unlocked, Pump, write_bytes, handle, overwrite, send}
use cannuccia.Pump.{Event, poll, timeout, run, boot, main, leave, dev_id_of}
use cannuccia.Pump.Ending.{main-timeout, run-prog_done}
use cannuccia.Pump.Transitions.{Moves, cause, run-Moves}
use cannuccia.Protocol.{
  prog_done, check_writes, commit_writes, writes_checked, writes_committed, command, command_id,
}
use cannuccia.Util.{write_u16_le, write_u32_le}
use cannuccia.Crc.{crc16}
use cannuccia.Pump.Session.{check_writes-upload, commit_writes-upload}
use mathlib.Core.List.{Memᴰ}
use cannuccia.Pump.Writes.{write_bytes_lem}
use cannuccia.Pump.Upload.{upload, upload_lem}
use cannuccia.Pump.Invariant.{IsValid, GivesBytes, boot-IsValid, boot-run-IsValid}
use cannuccia.Pump.Guards.{run-IsKept}
use cannuccia.Pump.Guards.Calls.{IsKept, Writeable}
use cannuccia.Pump.Order.{quiet_until_unlock}
use cannuccia.Pump.Order.Steps.{IsQuiet, Unlocks, received}
use cannuccia.Tests.Bench.{Bench, quiet_bench, bench_port, bytes_of, next_message}

bytes_of-IsBytes : (bs : List ℕ) → IsBytes (bytes_of bs)
bytes_of-IsBytes [] = tt
bytes_of-IsBytes (b ∷ bs) = (omega arith, bytes_of-IsBytes bs)

-- The bytes of a result.
abbrev bytes_in : Option (ℕ × List ℕ) → List ℕ
bytes_in none = []
bytes_in (some (id, bytes)) = bytes

next_message-IsBytes : (q : List (ℕ × List ℕ)) (d : Bench) → IsBytes (bytes_in (next_message q d).1)
next_message-IsBytes [] d = tt
next_message-IsBytes ((id, bytes) ∷ rest) d = bytes_of-IsBytes bytes

bench_gives_bytes : GivesBytes bench_port
bench_gives_bytes d id bytes e = rw (sym (ap bytes_in e)) (next_message-IsBytes d.inbox d)

-- A session: PROG_REQ, COMMIT_WRITES too early, UNLOCK, SELECT_PAGE, COMMIT_WRITES, PROG_DONE.
abbrev session : Bench
session = record quiet_bench {
  inbox =
      (0xCA001074, [])
      ∷ (0xCA008074, [])
      ∷ (0xCA003074, [])
      ∷ (0xCA004074, 16 ∷ 0 ∷ 0 ∷ 0 ∷ [])
      ∷ (0xCA006074, 1 ∷ 2 ∷ 3 ∷ [])
      ∷ (0xCA008074, [])
      ∷ (0xCA002074, [])
      ∷ [];
}

abbrev seven_polls : List Event
seven_polls = poll ∷ poll ∷ poll ∷ poll ∷ poll ∷ poll ∷ poll ∷ []

boot-run-IsValid_example :
    IsValid bench_port (run bench_port 7 seven_polls (boot bench_port session)).sel_page
boot-run-IsValid_example = boot-run-IsValid bench_port bench_gives_bytes 7 seven_polls session

-- No page has been begun.
abbrev Untouched : Bench → Type 0
Untouched d = d.begun ≡ []

next_message-Untouched :
    (q : List (ℕ × List ℕ)) (d : Bench) → Untouched d → Untouched (next_message q d).0
next_message-Untouched [] d h = h
next_message-Untouched ((id, bytes) ∷ rest) d h = h

bench_quiet : IsQuiet bench_port 7 Untouched
bench_quiet = record {
  recv = λ d h. next_message-Untouched d.inbox d h;
  send = λ id len bytes d h. h;
  stop = λ d h. h;
}

quiet_until_unlock_example :
    Untouched (run bench_port 7 seven_polls (boot bench_port session)).device
    ⊎ Unlocks (received bench_port 7 seven_polls (boot bench_port session))
quiet_until_unlock_example =
    quiet_until_unlock bench_port 7 Untouched bench_quiet seven_polls session (unfold boot in refl)

-- Every page that was begun lies below the bootloader.
abbrev Below : Bench → Type 0
Below d = All (λ (a : ℕ). a < 48) d.begun

next_message-Below : (q : List (ℕ × List ℕ)) (d : Bench) → Below d → Below (next_message q d).0
next_message-Below [] d h = h
next_message-Below ((id, bytes) ∷ rest) d h = h

bench_kept : IsKept bench_port (Writeable bench_port) Below
bench_kept = record {
  recv = λ d h. next_message-Below d.inbox d h;
  send = λ id len bytes d h. h;
  stop = λ d h. h;
  unlock_flash = λ d h. h;
  begin = λ a d w h. (ground arith, h);
  fill_page = λ bytes d w h. h;
  end_page = λ d h. h;
}

run-IsKept_example : Below (run bench_port 7 seven_polls (boot bench_port session)).device
run-IsKept_example =
    run-IsKept bench_port Below bench_kept 7 bench_gives_bytes seven_polls (boot bench_port session)
      (boot-IsValid bench_port bench_gives_bytes session) (unfold boot in tt)

abbrev started : Pump Bench
started = record {
  state = unlocked;
  sel_page = record { addr = 16; write_offset = 5; writes = 9 ∷ 9 ∷ 9 ∷ 9 ∷ 9 ∷ 9 ∷ 9 ∷ 9 ∷ [] };
  out_data = bench_port.uninitialised;
  device = session;
}

upload_lem_example :
    upload bench_port 7 ((1 ∷ 2 ∷ 3 ∷ []) ∷ (4 ∷ 5 ∷ 6 ∷ 7 ∷ 8 ∷ []) ∷ []) started
    ≡ record started {
      sel_page = record {
        addr = 16;
        write_offset = 8;
        writes = 1 ∷ 2 ∷ 3 ∷ 4 ∷ 5 ∷ 6 ∷ 7 ∷ 8 ∷ [];
      };
    }
unfolding flatten
upload_lem_example =
    upload_lem bench_port 7 ((1 ∷ 2 ∷ 3 ∷ []) ∷ (4 ∷ 5 ∷ 6 ∷ 7 ∷ 8 ∷ []) ∷ []) started (omega arith)
      refl refl

write_bytes_lem_example :
    write_bytes 8 (1 ∷ 2 ∷ 3 ∷ 4 ∷ []) started.sel_page
    ≡ record (started.sel_page) { write_offset = 8; writes = 9 ∷ 9 ∷ 9 ∷ 9 ∷ 9 ∷ 1 ∷ 2 ∷ 3 ∷ [] }
write_bytes_lem_example = write_bytes_lem 8 (1 ∷ 2 ∷ 3 ∷ 4 ∷ []) started.sel_page refl (omega arith)

abbrev interrupted : List Event
interrupted = poll ∷ poll ∷ timeout ∷ poll ∷ []

main-timeout_example :
    main bench_port session interrupted
    ≡ some (
        leave bench_port
          (run bench_port (dev_id_of bench_port session) interrupted (boot bench_port session)))
main-timeout_example =
    main-timeout bench_port session interrupted (Memᴰ.tail (Memᴰ.tail (Memᴰ.head refl)))

-- A PROG_DONE waits.
abbrev finishing : Pump Bench
finishing = record started { device = record quiet_bench { inbox = (0xCA002074, []) ∷ [] } }

run-prog_done_example :
    run bench_port 7 (poll ∷ interrupted) finishing
    ≡ handle bench_port 7 prog_done [] (record finishing { device = quiet_bench })
run-prog_done_example =
    run-prog_done bench_port 7 0xCA002074 [] interrupted finishing quiet_bench
      (unfold command in unfold command_id in refl) refl refl

run-Moves_example :
    Moves
      (cause bench_port 7 poll (run bench_port 7 seven_polls started))
      (run bench_port 7 seven_polls started).state
      (run bench_port 7 (seven_polls ++ (poll ∷ [])) started).state
run-Moves_example = run-Moves bench_port 7 seven_polls poll started

abbrev two_parts : List (List ℕ)
two_parts = (1 ∷ 2 ∷ 3 ∷ []) ∷ (4 ∷ 5 ∷ 6 ∷ 7 ∷ 8 ∷ []) ∷ []

abbrev eight_sent : List ℕ
eight_sent = 1 ∷ 2 ∷ 3 ∷ 4 ∷ 5 ∷ 6 ∷ 7 ∷ 8 ∷ []

check_writes-upload_example :
    (handle bench_port 7 check_writes [] (upload bench_port 7 two_parts started)).device
    ≡ send bench_port 7 writes_checked 2
        (overwrite (write_u16_le (crc16 8 eight_sent)) started.out_data)
        session
unfolding flatten
check_writes-upload_example =
    check_writes-upload bench_port 7 two_parts [] started (omega arith) refl refl

abbrev page_begun : Bench
page_begun = record session { begun = 16 ∷ [] }

commit_writes-upload_example :
    (handle bench_port 7 commit_writes [] (upload bench_port 7 two_parts started)).device
    ≡ send bench_port 7 writes_committed 4 (overwrite (write_u32_le 16) started.out_data) page_begun
unfolding flatten
commit_writes-upload_example =
    commit_writes-upload bench_port 7 two_parts [] started page_begun page_begun (omega arith) refl
      refl refl refl refl
