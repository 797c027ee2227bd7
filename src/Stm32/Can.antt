-- ===== src/Stm32/Can.antt =====
-- src/stm32/can.c: the registers of the bxCAN controller. Between the accesses of one call the
-- registers hold what was written.
pub mod Payload
pub mod Roundtrip
pub mod Startup
use cannuccia.Common.{
  ℕ, ◌+◌, ◌-◌, ◌*◌, ◌/◌, ◌^◌, bit_and, bit_or, Bool, true, false, List, [], ◌∷◌, Option, none, some,
  ◌<<<◌, ◌>>>◌, get_or, set, take, ltb, leb, ◌==◌, if◌then◌else◌,
}

-- `struct CanMailbox`
pub record Mailbox : Type 0 where
  pub ir : ℕ
  pub dtr : ℕ
  pub dlr : ℕ
  pub dhr : ℕ

abbrev pub empty_mailbox : Mailbox
empty_mailbox = record { ir = 0; dtr = 0; dlr = 0; dhr = 0 }

-- `struct CanFilter`
pub record Filter : Type 0 where
  pub r1 : ℕ
  pub r2 : ℕ

-- The registers of `struct Can` that the driver uses after its start-up.
pub record Can : Type 0 where
  pub tsr : ℕ
  pub rf0r : ℕ
  pub outbox : List Mailbox
  pub inbox0 : Mailbox
  pub fm1r : ℕ
  pub fs1r : ℕ
  pub ffa1r : ℕ
  pub fa1r : ℕ
  pub filter : List Filter

-- `x & ~bit` over 32 bits.
unfoldable pub clear_bit : ℕ → ℕ → ℕ
clear_bit x bit = bit_and x (0xFFFFFFFF - bit)

-- `initCANFilter`
unfoldable pub init_filter : ℕ → ℕ → ℕ → Can → Can
unfolding clear_bit
init_filter n id mask c =
    let bit = 1 <<< n in
    record c {
      fa1r = bit_or (clear_bit c.fa1r bit) bit;
      fm1r = clear_bit c.fm1r bit;
      fs1r = bit_or c.fs1r bit;
      ffa1r = clear_bit c.ffa1r bit;
      filter = set c.filter n (record { r1 = id; r2 = mask });
    }

-- `*reg |= value` in a `case` that is reached.
pub or_if : Bool → ℕ → ℕ → ℕ
or_if true value reg = bit_or reg value
or_if false value reg = reg

-- The `switch` of `cnCANSend` enters at `len` and falls through to the lower cases.
pub high_word : ℕ → List ℕ → ℕ
unfolding or_if
high_word len bytes = or_if (leb 5 len) (get_or bytes 4 0) (
    or_if (leb 6 len) (get_or bytes 5 0 <<< 8)
      (or_if (leb 7 len) (get_or bytes 6 0 <<< 16) (or_if (leb 8 len) (get_or bytes 7 0 <<< 24) 0)))

pub low_word : ℕ → List ℕ → ℕ
unfolding or_if
low_word len bytes = or_if (leb 1 len) (get_or bytes 0 0) (
    or_if (leb 2 len) (get_or bytes 1 0 <<< 8)
      (or_if (leb 3 len) (get_or bytes 2 0 <<< 16) (or_if (leb 4 len) (get_or bytes 3 0 <<< 24) 0)))

-- `len = len <= 8 ? len : 8`
pub truncated : ℕ → ℕ
truncated len = if leb len 8 then len else 8

-- What a send leaves in its mailbox, with the transmission request set.
pub loaded : ℕ → ℕ → List ℕ → Mailbox
unfolding truncated high_word low_word clear_bit
loaded id len bytes =
    let n = truncated len in
    record {
      ir = bit_or (clear_bit id 0x00000001) 0x00000001;
      dtr = bit_and n 0x0000000F;
      dlr = low_word n bytes;
      dhr = high_word n bytes;
    }

-- `cnCANSend`; `none` is the -1.
pub can_send : ℕ → ℕ → List ℕ → Can → Can × Option ℕ
unfolding loaded truncated
can_send id len bytes c =
    let mailbox_id = bit_and c.tsr 0x03000000 >>> 24 in
    if bit_and c.tsr 0x1C000000 == 0
    then (c, none)
    else (record c { outbox = set c.outbox mailbox_id (loaded id len bytes) }, some (truncated len))

-- The eight bytes of the two data registers, as the `case`s of `cnCANRecv` take them.
pub payload : Mailbox → List ℕ
payload m =
    bit_and m.dlr 0x000000FF
    ∷ bit_and m.dlr 0x0000FF00 >>> 8
    ∷ bit_and m.dlr 0x00FF0000 >>> 16
    ∷ bit_and m.dlr 0xFF000000 >>> 24
    ∷ bit_and m.dhr 0x000000FF
    ∷ bit_and m.dhr 0x0000FF00 >>> 8
    ∷ bit_and m.dhr 0x00FF0000 >>> 16
    ∷ bit_and m.dhr 0xFF000000 >>> 24
    ∷ []

-- A message: its identifier, the length that is returned, and the bytes that are stored.
pub record Message : Type 0 where
  pub id : ℕ
  pub count : ℕ
  pub bytes : List ℕ

-- `cnCANRecv`; `none` is the -1.
pub can_recv : ℕ → Can → Can × Option Message
unfolding payload
can_recv max_len c =
    let payload_len = bit_and c.inbox0.dtr 0x0000000F in
    let n = if ltb max_len payload_len then max_len else payload_len in
    if bit_and c.rf0r 0x00000003 == 0 then (c, none) else (
      record c { rf0r = bit_or c.rf0r 0x00000020 },
      some (record { id = c.inbox0.ir; count = n; bytes = take n (payload c.inbox0) }),
    )
