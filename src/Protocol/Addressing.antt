-- ===== src/Protocol/Addressing.antt =====
-- Which messages a device accepts, and how it reads their type (src/common/can_msgs.h).
use Prim.Native.Nat.{ℕ}
use cannuccia.Common.{◌+◌, ◌*◌, ◌<◌, ◌≡◌, refl, ◌≢◌, ◌↔◌, bit_and, Bool, true, ◌==◌, ==_iff, arith}
use cannuccia.Common.Bits.{holds_from, all_below, all_below_sound}
use cannuccia.Protocol.{
  Command, prog_req, prog_done, unlock, select_page, seek, write, check_writes, commit_writes,
  unknown, command_id, command, dev_mask, msgid_mask, tx_filter_mask, tx_filter_id, accepts,
}

abbrev filtered : ℕ → ℕ → ℕ
filtered base dev_id = bit_and (dev_mask base dev_id) tx_filter_mask

-- What the filter sees of an identifier is its direction and its device.
abbrev same_filter : ℕ → ℕ → Bool
same_filter base dev_id = filtered base dev_id == 0xCA000004 + dev_id * 16

-- What the `switch` sees of an identifier is the message's type.
abbrev same_type : ℕ → ℕ → Bool
same_type base dev_id = bit_and (dev_mask base dev_id) msgid_mask == base

command_table :
    (c : Command)
    → c ≢ unknown
    → (all_below 256 (same_filter (command_id c)) ≡ true)
      × (all_below 256 (same_type (command_id c)) ≡ true)
unfolding holds_from dev_mask command_id
command_table prog_req h = (refl, refl)
command_table prog_done h = (refl, refl)
command_table unlock h = (refl, refl)
command_table select_page h = (refl, refl)
command_table seek h = (refl, refl)
command_table write h = (refl, refl)
command_table check_writes h = (refl, refl)
command_table commit_writes h = (refl, refl)
command_table unknown h = absurd (h refl)

filter_table : all_below 256 (same_filter tx_filter_id) ≡ true
unfolding holds_from dev_mask
filter_table = refl

masked_type :
    (c : Command) (d : ℕ)
    → c ≢ unknown
    → d < 256
    → bit_and (dev_mask (command_id c) d) msgid_mask ≡ command_id c
masked_type c d known h =
    (==_iff _ _).0 (all_below_sound 256 (same_type (command_id c)) d (command_table c known).1 h)

masked_device :
    (c : Command) (d : ℕ) → c ≢ unknown → d < 256 → filtered (command_id c) d ≡ 0xCA000004 + d * 16
masked_device c d known h =
    (==_iff _ _).0 (all_below_sound 256 (same_filter (command_id c)) d (command_table c known).0 h)

masked_filter : (d : ℕ) → d < 256 → filtered tx_filter_id d ≡ 0xCA000004 + d * 16
masked_filter d h = (==_iff _ _).0 (all_below_sound 256 (same_filter tx_filter_id) d filter_table h)

-- A message of the master addressed to any device is read as the command that it was built from.
pub command-dev_mask :
    (c : Command) (d : ℕ) → c ≢ unknown → d < 256 → command (dev_mask (command_id c) d) ≡ c
unfolding command
command-dev_mask prog_req d known h = unfold command_id in rw (masked_type prog_req d known h)
command-dev_mask unknown d known h = absurd (known refl)
command-dev_mask c d known h = unfold command_id in rw (masked_type c d known h)

-- With the filter that `main` sets up, a device of id `d` accepts exactly the commands that are
-- addressed to it.
pub accepts_iff :
    (c : Command) (d d' : ℕ)
    → c ≢ unknown
    → d < 256
    → d' < 256
    → (accepts (dev_mask tx_filter_id d) tx_filter_mask (dev_mask (command_id c) d') ≡ true)
      ↔ (d ≡ d')
unfolding accepts
accepts_iff c d d' known h h' = ground (arith, masked_device c d' known h', masked_filter d h)
