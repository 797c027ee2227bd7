-- ===== src/Avr/Can/Send.antt =====
-- What `cnCANSend` of src/avr/can.c sends and what `cnCANRecv` returns.
use cannuccia.Common.{
  ℕ, zero, suc, ◌+◌, ◌≤◌, ◌<◌, ◌≡◌, refl, ap, ◌⊎◌, inl, inr, Option, none, some, List, [], ◌∷◌,
  ◌++◌, length, take, arith,
}
use cannuccia.Common.Bits.{bit_and_low}
use cannuccia.Avr.Can.Link.{Spi, receive_all}
use cannuccia.Avr.Can.Registers.{put_eid}
use cannuccia.Avr.Can.Messages.{
  sent, busy, free_mailbox, capped_length, copy_payload, dlc, can_send, can_recv, read_status,
  send_to, send_frame, load_and_send, full_mailbox, receive_from,
}

copy_payload-some :
    (i n : ℕ) (bytes : List ℕ)
    → i + n ≤ 8
    → n ≤ length bytes
    → copy_payload i n bytes ≡ some (take n bytes)
unfolding copy_payload
copy_payload-some i zero bytes h k = refl
copy_payload-some i (suc n) [] h k = absurd (omega arith)
copy_payload-some i (suc n) (b ∷ bytes) h k =
    ground (arith, copy_payload-some (i + 1) n bytes (omega arith) (omega arith))

copy_payload-none :
    (i n : ℕ) (bytes : List ℕ) → i + n ≤ 8 → length bytes < n → copy_payload i n bytes ≡ none
unfolding copy_payload
copy_payload-none i zero bytes h k = absurd (omega arith)
copy_payload-none i (suc n) [] h k = refl
copy_payload-none i (suc n) (b ∷ bytes) h k =
    ground (arith, copy_payload-none (i + 1) n bytes (omega arith) (omega arith))

copy_payload-overflow :
    (i n : ℕ) (bytes : List ℕ) → i ≤ 8 → 8 < i + n → copy_payload i n bytes ≡ none
unfolding copy_payload
copy_payload-overflow i zero bytes h k = absurd (omega arith)
copy_payload-overflow i (suc n) [] h k = refl
copy_payload-overflow i (suc n) (b ∷ bytes) h k =
    ground (arith, copy_payload-overflow (i + 1) n bytes)

capped_small : (len : ℕ) → len ≤ 8 → capped_length len ≡ 8
unfolding capped_length
capped_small len h = ground arith

capped_large : (len : ℕ) → 8 < len → capped_length len ≡ len
unfolding capped_length
capped_large len h = ground arith

-- The copy succeeds exactly for a length up to 8 and at least eight bytes in `data`.
payload_needs :
    (len : ℕ) (bytes payload : List ℕ)
    → copy_payload 0 (capped_length len) bytes ≡ some payload
    → (len ≤ 8) × (8 ≤ length bytes)
payload_needs len bytes payload e = ground (
  arith,
  capped_small len,
  capped_large len,
  copy_payload-overflow 0 len bytes,
  copy_payload-none 0 8 bytes,
)

payload_length : Option (ℕ × List ℕ) → ℕ
payload_length none = 0
payload_length (some (id, bytes)) = length bytes

module _ {S : Type 0} (spi : Spi S) where
  send_to_result :
      (id : ℕ) (bytes : List ℕ) (mailbox : Option ℕ) (s : S)
      → 8 ≤ length bytes
      → ((send_to spi id 8 bytes mailbox s).0 ≡ sent 8)
        ⊎ ((send_to spi id 8 bytes mailbox s).0 ≡ busy)
  unfolding send_to send_frame
  send_to_result id bytes none s enough = inr refl
  send_to_result id bytes (some mailbox) s enough =
      rw (copy_payload-some 0 8 bytes (omega arith) enough) (inl refl)

  -- With eight bytes to read, a send of at most eight does not fault.
  pub can_send_result :
      (id len : ℕ) (bytes : List ℕ) (s : S)
      → len ≤ 8
      → 8 ≤ length bytes
      → ((can_send spi id len bytes s).0 ≡ sent 8) ⊎ ((can_send spi id len bytes s).0 ≡ busy)
  unfolding can_send
  can_send_result id len bytes s short enough =
      let (status, t) = read_status spi 0xA0 s in
      rw (capped_small len short) (send_to_result id bytes (free_mailbox status) t enough)

  -- A send with a length up to 8, from an array of at least eight bytes and with a free mailbox,
  -- loads the identifier, the length code 8 and the first eight bytes, whatever the length is, and
  -- returns 8.
  pub can_send_frame :
      (id len mailbox : ℕ) (bytes : List ℕ) (s : S)
      → len ≤ 8
      → 8 ≤ length bytes
      → free_mailbox (read_status spi 0xA0 s).0 ≡ some mailbox
      → can_send spi id len bytes s ≡ (
        sent 8,
        (load_and_send spi mailbox
            (put_eid id ++ (dlc id 8 ∷ take 8 bytes))
            (read_status spi 0xA0 s).1).1,
      )
  unfolding can_send send_to send_frame
  can_send_frame id len mailbox bytes s short enough free =
      rw (free, capped_small len short)
        (rw (copy_payload-some 0 8 bytes (omega arith) enough, send_frame))

  frame_eight :
      (id len m n : ℕ) (bytes : List ℕ) (payload : Option (List ℕ)) (t : S)
      → copy_payload 0 (capped_length len) bytes ≡ payload
      → (send_frame spi id (capped_length len) m payload t).0 ≡ sent n
      → (n ≡ 8) × (len ≤ 8) × (8 ≤ length bytes)
  unfolding send_frame
  frame_eight id len m n bytes none t e h = cc
  frame_eight id len m n bytes (some payload) t e h =
      ground (arith, payload_needs len bytes payload e, capped_small len)

  to_eight :
      (id len n : ℕ) (bytes : List ℕ) (mailbox : Option ℕ) (t : S)
      → (send_to spi id (capped_length len) bytes mailbox t).0 ≡ sent n
      → (n ≡ 8) × (len ≤ 8) × (8 ≤ length bytes)
  unfolding send_to
  to_eight id len n bytes none t h = cc
  to_eight id len n bytes (some m) t h =
      frame_eight id len m n bytes (copy_payload 0 (capped_length len) bytes) t refl h

  -- Whatever length is asked for, a send that succeeds returns 8, and has read eight bytes.
  pub can_send_eight :
      (id len n : ℕ) (bytes : List ℕ) (s : S)
      → (can_send spi id len bytes s).0 ≡ sent n
      → (n ≡ 8) × (len ≤ 8) × (8 ≤ length bytes)
  unfolding can_send
  can_send_eight id len n bytes s h =
      let (status, t) = read_status spi 0xA0 s in to_eight id len n bytes (free_mailbox status) t h

  length-receive_all : (n : ℕ) (s : S) → length (receive_all spi n s).0 ≡ n
  unfolding receive_all
  length-receive_all zero s = refl
  length-receive_all (suc n) s = omega (arith, length-receive_all n (spi.exchange 0x00 s).1)

  length-receive_from :
      (max_len id : ℕ) (bytes : List ℕ) (mailbox : Option ℕ) (s : S)
      → (receive_from spi max_len mailbox s).0 ≡ some (id, bytes)
      → (length bytes ≤ max_len) × (length bytes ≤ 15)
  unfolding receive_from payload_length
  length-receive_from max_len id bytes none s h = cc
  length-receive_from max_len id bytes (some m) s h =
      omega (arith, length-receive_all, bit_and_low 4, ap payload_length h)

  -- A received message never has more bytes than the caller's buffer, and never more than 15.
  pub can_recv-length :
      (max_len id : ℕ) (bytes : List ℕ) (s : S)
      → (can_recv spi max_len s).0 ≡ some (id, bytes)
      → (length bytes ≤ max_len) × (length bytes ≤ 15)
  unfolding can_recv
  can_recv-length max_len id bytes s h =
      let (status, t) = read_status spi 0xB0 s in
      length-receive_from max_len id bytes (full_mailbox status) t h
