-- ===== src/Avr/Can/Receiving.antt =====
-- `cnCANRecv` of src/avr/can.c gives bytes, as the link does.
use cannuccia.Common.{ℕ, zero, suc, ◌<◌, ◌≡◌, sym, ap, Option, none, some, List, [], IsBytes}
use cannuccia.Avr.Can.Link.{Spi, receive_all}
use cannuccia.Avr.Can.Messages.{can_recv, receive_from, read_status, full_mailbox}

payload_of : Option (ℕ × List ℕ) → List ℕ
payload_of none = []
payload_of (some (id, bytes)) = bytes

module _ {S : Type 0} (spi : Spi S)
    (exchange_byte : (b : ℕ) (s : S) → (spi.exchange b s).0 < 256) where
  IsBytes-receive_all : (n : ℕ) (s : S) → IsBytes (receive_all spi n s).0
  unfolding receive_all
  IsBytes-receive_all zero s = tt
  IsBytes-receive_all (suc n) s =
      (exchange_byte 0x00 s, IsBytes-receive_all n (spi.exchange 0x00 s).1)

  IsBytes-receive_from :
      (max_len : ℕ) (mailbox : Option ℕ) (s : S)
      → IsBytes (payload_of (receive_from spi max_len mailbox s).0)
  unfolding receive_from payload_of
  IsBytes-receive_from max_len none s = tt
  IsBytes-receive_from max_len (some m) s = IsBytes-receive_all _ _

  pub can_recv-IsBytes :
      (max_len id : ℕ) (bytes : List ℕ) (s : S)
      → (can_recv spi max_len s).0 ≡ some (id, bytes)
      → IsBytes bytes
  unfolding can_recv payload_of
  can_recv-IsBytes max_len id bytes s e =
      let (status, t) = read_status spi 0xB0 s in
      rw (sym (ap payload_of e)) (IsBytes-receive_from max_len (full_mailbox status) t)
