-- ===== src/Avr/Can/Commands.antt =====
-- Which command an AVR device reads from a message that is in the registers as src/avr/can.c
-- itself would put it there.
use cannuccia.Common.{ℕ, ◌<◌, ◌≡◌, ◌≢◌, refl, bit_and, Bool, true, ◌==◌, ==_iff}
use cannuccia.Common.Bits.{holds_from, all_below, all_below_sound}
use cannuccia.Protocol.{
  Command, prog_req, prog_done, unlock, select_page, seek, write, check_writes, commit_writes,
  unknown, command_id, command, dev_mask, msgid_mask,
}
use cannuccia.Avr.Can.Registers.{put_eid, get_eid}

-- Two bits of the message's type are lost on the way.
abbrev pub misread : Command → Command
misread select_page = select_page
misread seek = select_page
misread write = select_page
misread check_writes = select_page
misread commit_writes = commit_writes
misread _ = unknown

-- The type that remains.
abbrev remaining : Command → ℕ
remaining select_page = 0xCA004000
remaining seek = 0xCA004000
remaining write = 0xCA004000
remaining check_writes = 0xCA004000
remaining commit_writes = 0xCA008000
remaining _ = 0xCA000000

abbrev arrives : Command → ℕ → Bool
arrives c d = bit_and (get_eid (put_eid (dev_mask (command_id c) d))) msgid_mask == remaining c

arrives_table : (c : Command) → c ≢ unknown → all_below 256 (arrives c) ≡ true
unfolding holds_from dev_mask command_id put_eid get_eid
arrives_table prog_req h = refl
arrives_table prog_done h = refl
arrives_table unlock h = refl
arrives_table select_page h = refl
arrives_table seek h = refl
arrives_table write h = refl
arrives_table check_writes h = refl
arrives_table commit_writes h = refl
arrives_table unknown h = absurd (h refl)

masked :
    (c : Command) (d : ℕ)
    → c ≢ unknown
    → d < 256
    → bit_and (get_eid (put_eid (dev_mask (command_id c) d))) msgid_mask ≡ remaining c
masked c d known h = (==_iff _ _).0 (all_below_sound 256 (arrives c) d (arrives_table c known) h)

-- Where the identifier of one of the master's commands, for any device, is put in the registers by
-- mcpPutEID and taken from the same registers by mcpGetEID, only SELECT_PAGE and COMMIT_WRITES are
-- read as what they are; SEEK, WRITE and CHECK_WRITES are read as SELECT_PAGE, and the others as
-- no command. Nothing is said of registers that are filled in another way.
pub command-misread :
    (c : Command) (d : ℕ)
    → c ≢ unknown
    → d < 256
    → command (get_eid (put_eid (dev_mask (command_id c) d))) ≡ misread c
unfolding command
command-misread prog_req d known h = unfold command_id in rw (masked prog_req d known h)
command-misread unknown d known h = absurd (known refl)
command-misread c d known h = unfold command_id in rw (masked c d known h)
