-- ===== src/Stm32/Can/Roundtrip.antt =====
-- A message that `cnCANSend` of src/stm32/can.c puts in a mailbox, read by `cnCANRecv`.
use cannuccia.Common.{
  ℕ, ◌≤◌, ◌<◌, min, ◌≡◌, ◌≢◌, ap, bit_and, false, some, List, length, get_or, get_or-set, take,
  IsBytes, ◌==◌, ltb, arith, ◌>>>◌,
}
use cannuccia.Common.Bits.{bit_and_low}
use cannuccia.Stm32.Can.{Can, empty_mailbox, loaded, truncated, can_send, can_recv}
use cannuccia.Stm32.Can.Payload.{payload_lem, take_payload}

truncated_lem : (len : ℕ) → truncated len ≡ min len 8
unfolding truncated
truncated_lem len = ground arith

abbrev pub mailbox_of : Can → ℕ
mailbox_of c = bit_and c.tsr 0x03000000 >>> 24

-- What is loaded is received.
can_recv-loaded :
    (id ir len : ℕ) (bytes : List ℕ) (c : Can)
    → IsBytes bytes
    → len ≤ length bytes
    → bit_and c.rf0r 0x00000003 ≢ 0
    → (can_recv 8 (record c { inbox0 = record (loaded id len bytes) { ir = ir } })).1
      ≡ some (record { id = ir; count = min len 8; bytes = take (min len 8) bytes })
unfolding can_recv loaded
can_recv-loaded id ir len bytes c h enough pending =
    let n = truncated len in
    let count : n ≡ min len 8 = truncated_lem len in
    let code : bit_and n 15 ≡ n = omega (arith, bit_and_low 4 n, count) in
    let busy : (bit_and c.rf0r 3 == 0) ≡ false = ground arith in
    let fits : ltb 8 n ≡ false = ground arith in
    rw (code, code, payload_lem n bytes ir (bit_and n 15) h)
      (rw (busy, fits)
        (rw (take_payload n bytes (omega arith) (omega arith))
          (ap (λ (k : ℕ). some (record { id = ir; count = k; bytes = take k bytes })) count)))

-- A send with a free mailbox returns the length, at most 8. A receiver whose input mailbox then
-- holds the length code and the data registers of that mailbox, under any identifier, gets as many
-- bytes, and they are the first bytes that were sent.
pub can_recv-can_send :
    (id ir len : ℕ) (bytes : List ℕ) (sender receiver : Can)
    → IsBytes bytes
    → len ≤ length bytes
    → bit_and sender.tsr 0x1C000000 ≢ 0
    → mailbox_of sender < length sender.outbox
    → bit_and receiver.rf0r 0x00000003 ≢ 0
    → let (after, result) = can_send id len bytes sender in
      let m = get_or after.outbox (mailbox_of sender) empty_mailbox in
      (result ≡ some (min len 8))
      × ((can_recv 8 (record receiver { inbox0 = record m { ir = ir } })).1
          ≡ some (record { id = ir; count = min len 8; bytes = take (min len 8) bytes }))
unfolding can_send
can_recv-can_send id ir len bytes sender receiver h enough free inside pending =
    let ready : (bit_and sender.tsr 0x1C000000 == 0) ≡ false = ground arith in
    rw ready (
      ap some (truncated_lem len),
      rw (get_or-set sender.outbox (mailbox_of sender) (loaded id len bytes) empty_mailbox inside)
          (can_recv-loaded id ir len bytes receiver h enough pending),
    )
