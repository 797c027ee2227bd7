-- ===== src/Avr/Can/Messages.antt =====
-- `cnCANSend` and `cnCANRecv` of src/avr/can.c.
use mathlib.Core.Option
use cannuccia.Common.{
  ℕ, zero, suc, ◌+◌, bit_and, bit_or, not, List, [], ◌∷◌, ◌++◌, Option, none, some, u8, ◌<<<◌, min,
  ltb, ◌==◌, if◌then◌else◌,
}
use cannuccia.Avr.Can.Link.{
  Spi, M, ◌>>=◌, ◌>>◌, pure, select, deselect, transfer, send_all, receive_all,
}
use cannuccia.Avr.Can.Registers.{put_eid, get_eid}

abbrev pub rtr : ℕ
rtr = 0x00000002

abbrev pub bdlc_rtr : ℕ
bdlc_rtr = 0x40

-- The results of `cnCANSend`: the number of bytes, -1 where no mailbox is free, and `fault` where
-- the code reads or writes past an array. C leaves open what follows a fault, in which the code goes
-- on to load the mailbox; the model stops there, and nothing is claimed of the state behind it.
pub data Sending : Type 0 where
  sent : ℕ → Sending
  busy fault : Sending

-- The first free mailbox of a status byte.
unfoldable pub free_mailbox : ℕ → Option ℕ
free_mailbox status =
    if bit_and status 0x04 == 0
    then some 0
    else if bit_and status 0x10 == 0
    then some 1
    else if bit_and status 0x40 == 0
    then some 2
    else none

-- `len = len > 8 ? len : 8`
unfoldable pub capped_length : ℕ → ℕ
capped_length len = if ltb 8 len then len else 8

-- The loop that copies `data[0 .. n)` behind `buffer[5 + i]`: `data` holds `bytes`, and the buffer
-- ends at index 13.
unfoldable pub copy_payload : ℕ → ℕ → List ℕ → Option (List ℕ)
copy_payload i zero bytes = some []
copy_payload i (suc n) [] = none
copy_payload i (suc n) (b ∷ bytes) =
    let rest = Option.map (λ copied. b ∷ copied) (copy_payload (i + 1) n bytes) in
    if ltb (5 + i) 13 then rest else none

-- `buffer[4]`
unfoldable pub dlc : ℕ → ℕ → ℕ
dlc id len = if bit_and id rtr == 0 then u8 len else bit_or (u8 len) bdlc_rtr

-- The receive mailbox of a status byte; mailbox 0 has precedence.
unfoldable pub full_mailbox : ℕ → Option ℕ
full_mailbox status =
    if not (bit_and status 0x40 == 0)
    then some 0
    else if not (bit_and status 0x80 == 0)
    then some 1
    else none

module _ {S : Type 0} (spi : Spi S) where
  unfoldable pub read_status : ℕ → M S ℕ
  read_status request = do
    select spi
    transfer spi request
    status ← transfer spi 0x00
    deselect spi
    pure status

  -- Writing the buffer to a mailbox, and the request to send it.
  unfoldable pub load_and_send : ℕ → List ℕ → M S (Unit {0})
  unfolding send_all
  load_and_send mailbox buffer = do
    select spi
    transfer spi (bit_or 0x40 (u8 (mailbox <<< 1)))
    send_all spi buffer
    deselect spi
    select spi
    transfer spi (bit_or 0x80 (u8 (1 <<< mailbox)))
    deselect spi

  unfoldable pub send_frame : ℕ → ℕ → ℕ → Option (List ℕ) → M S Sending
  unfolding load_and_send
  send_frame id len mailbox none = pure fault
  send_frame id len mailbox (some payload) = do
    load_and_send mailbox (put_eid id ++ (dlc id len ∷ payload))
    pure (sent len)

  unfoldable pub send_to : ℕ → ℕ → List ℕ → Option ℕ → M S Sending
  unfolding send_frame
  send_to id len bytes none = pure busy
  send_to id len bytes (some mailbox) = send_frame id len mailbox (copy_payload 0 len bytes)

  -- `cnCANSend`; `data` holds `bytes`, which may be more or fewer than `len`.
  unfoldable pub can_send : ℕ → ℕ → List ℕ → M S Sending
  unfolding read_status send_to
  can_send id len bytes = do
    status ← read_status 0xA0
    send_to id (capped_length len) bytes (free_mailbox status)

  unfoldable pub receive_from : ℕ → Option ℕ → M S (Option (ℕ × List ℕ))
  unfolding receive_all
  receive_from max_len none = pure none
  receive_from max_len (some mailbox) = do
    select spi
    transfer spi (bit_or 0x90 (u8 (mailbox <<< 1)))
    regs ← receive_all spi 4
    header ← transfer spi 0x00
    bytes ← receive_all spi (min (bit_and header 0x0F) max_len)
    deselect spi
    pure (
        some
          (if bit_and header bdlc_rtr == 0 then get_eid regs else bit_or (get_eid regs) rtr, bytes))

  -- `cnCANRecv`
  unfoldable pub can_recv : ℕ → M S (Option (ℕ × List ℕ))
  unfolding read_status receive_from
  can_recv max_len = do status ← read_status 0xB0; receive_from max_len (full_mailbox status)
