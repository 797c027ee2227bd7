-- ===== src/Tests/Bench.antt =====
-- A target for `main` of src/common/main.c to run on: messages that wait, messages that were sent,
-- and the pages that were begun. It has pages of 8 bytes.
use cannuccia.Common.{ℕ, ◌%◌, Bool, true, false, Option, none, some, List, [], ◌∷◌, take, ltb}
use cannuccia.Crc.{crc16}
use cannuccia.Port.{Port}

pub record Bench : Type 0 where
  pub inbox : List (ℕ × List ℕ)
  pub outbox : List (ℕ × List ℕ)
  pub begun : List ℕ
  pub locked : Bool

abbrev pub quiet_bench : Bench
quiet_bench = record { inbox = []; outbox = []; begun = []; locked = true }

-- Every byte that comes off the bus is cut to 8 bits.
abbrev pub bytes_of : List ℕ → List ℕ
bytes_of [] = []
bytes_of (b ∷ bs) = b % 256 ∷ bytes_of bs

abbrev pub next_message : List (ℕ × List ℕ) → Bench → Bench × Option (ℕ × List ℕ)
next_message [] d = (d, none)
next_message ((id, bytes) ∷ rest) d = (record d { inbox = rest }, some (id, bytes_of bytes))

abbrev pub bench_port : Port Bench
bench_port = record {
  page_size = 8;
  page_mask = 0xFFFFFFF8;
  e_machine = 83;
  address_bits = 16;
  ctz = λ n. 3;
  crc16 = crc16;
  flash_size = 64;
  flash_unlock = λ d. (record d { locked = false }, true);
  flash_lock = λ d. (record d { locked = true }, true);
  page_writeable = λ a. ltb a 48;
  begin_write = λ a d. (record d { begun = a ∷ d.begun }, true);
  fill = λ offset len bytes d. (d, len);
  end_write = λ d. (d, true);
  read_dev_id = λ d. 7;
  jump_to_program = λ d. d;
  can_init = λ id mask d. (d, true);
  can_send = λ id len bytes d. (record d { outbox = (id, take len bytes) ∷ d.outbox }, some len);
  can_recv = λ max_len d. next_message d.inbox d;
  uninitialised = 0xAA ∷ 0xAA ∷ 0xAA ∷ 0xAA ∷ 0xAA ∷ 0xAA ∷ 0xAA ∷ 0xAA ∷ [];
  timer_start = λ us once d. (d, true);
  timer_stop = λ d. d;
  debug_init = λ d. (d, true);
  debug_led = λ on d. d;
}
