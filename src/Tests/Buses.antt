-- ===== src/Tests/Buses.antt =====
-- The theorems on src/avr/can.c and src/stm32/can.c, on the link of Wire.
use cannuccia.Common.{
  ℕ, ◌+◌, ◌*◌, ◌/◌, ◌%◌, ◌^◌, ◌≤◌, min, ◌≡◌, refl, some, List, [], ◌∷◌, ◌++◌, length, get_or, take,
  arith, get_or,
}
use cannuccia.Protocol.{write, select_page, command, command_id, dev_mask}
use cannuccia.Tests.Wire.{Wire, wire, idle_wire}
use cannuccia.Avr.Can.Registers.{put_eid, get_eid}
use cannuccia.Avr.Can.Identifier.{get_eid-put_eid}
use cannuccia.Avr.Can.Commands.{command-misread}
use cannuccia.Avr.Can.Messages as Messages
use cannuccia.Avr.Can.Messages.{sent, dlc, read_status, load_and_send}
use cannuccia.Avr.Can.Send.{can_send_frame, can_send_eight, can_recv-length}
use cannuccia.Stm32.Can.{Can, Mailbox, empty_mailbox}
use cannuccia.Stm32.Can
use cannuccia.Stm32.Can.Roundtrip.{can_recv-can_send, mailbox_of}

get_eid-put_eid_example :
    get_eid (put_eid 0xCA003074) ≡ 0xCA003074 / 2 ^ 14 * 2 ^ 14 + 0xCA003074 % 2 ^ 14 / 8
get_eid-put_eid_example = get_eid-put_eid 0xCA003074 (omega arith)

command-misread_example : command (get_eid (put_eid (dev_mask (command_id write) 7))) ≡ select_page
command-misread_example = command-misread write 7 (λ e. cc) (omega arith)

abbrev eight_bytes : List ℕ
eight_bytes = 1 ∷ 2 ∷ 3 ∷ 4 ∷ 5 ∷ 6 ∷ 7 ∷ 8 ∷ []

can_send_frame_example : Messages.can_send wire 0xCB001074 5 eight_bytes idle_wire ≡ (
  sent 8,
  (load_and_send wire 0
      (put_eid 0xCB001074 ++ (dlc 0xCB001074 8 ∷ take 8 eight_bytes))
      (read_status wire 0xA0 idle_wire).1).1,
)
can_send_frame_example =
    can_send_frame wire 0xCB001074 5 0 eight_bytes idle_wire (omega arith) (omega arith)
      (unfold read_status Messages.free_mailbox in refl)

abbrev eight : ℕ
eight = 8

can_send_eight_example : (eight ≡ 8) × (5 ≤ eight) × (8 ≤ length eight_bytes)
unfolding Messages.free_mailbox Messages.copy_payload Messages.capped_length
can_send_eight_example =
    can_send_eight wire 0xCB001074 5 eight eight_bytes idle_wire (unfold Messages.can_send in refl)

-- A status byte with mailbox 0 full, four registers, a length code of 3, and three bytes.
abbrev waiting_wire : Wire
waiting_wire = record idle_wire {
  answers = 0 ∷ 0x40 ∷ 0 ∷ 1 ∷ 0x48 ∷ 2 ∷ 3 ∷ 3 ∷ 10 ∷ 11 ∷ 12 ∷ [];
}

abbrev three_bytes : List ℕ
three_bytes = 10 ∷ 11 ∷ 12 ∷ []

can_recv-length_example : (length three_bytes ≤ 8) × (length three_bytes ≤ 15)
unfolding Messages.full_mailbox
can_recv-length_example =
    can_recv-length wire 8 (get_eid (1 ∷ 0x48 ∷ 2 ∷ 3 ∷ [])) three_bytes waiting_wire
      (unfold Messages.can_recv in refl)

abbrev controller : Can
controller = record {
  tsr = 0x05000000;
  rf0r = 1;
  outbox = empty_mailbox ∷ empty_mailbox ∷ empty_mailbox ∷ [];
  inbox0 = empty_mailbox;
  fm1r = 0;
  fs1r = 0;
  ffa1r = 0;
  fa1r = 0;
  filter = [];
}

can_recv-can_send_example :
    let (after, result) = Can.can_send 0xCB001074 5 eight_bytes controller in
    let m = get_or after.outbox (mailbox_of controller) empty_mailbox in
    (result ≡ some (min 5 8))
    × ((Can.can_recv 8 (record controller { inbox0 = record m { ir = 0xCB001074 } })).1
        ≡ some (record { id = 0xCB001074; count = min 5 8; bytes = take (min 5 8) eight_bytes }))
can_recv-can_send_example =
    can_recv-can_send 0xCB001074 0xCB001074 5 eight_bytes controller controller
      (
        omega arith,
        (
          omega arith,
          (
            omega arith,
            (omega arith, (omega arith, (omega arith, (omega arith, (omega arith, tt))))),
          ),
        ),
      )
      (omega arith) (λ e. cc) (omega arith) (λ e. cc)
