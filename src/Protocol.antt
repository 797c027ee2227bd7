-- ===== src/Protocol.antt =====
-- src/common/can_msgs.h: message identifiers and filters.
pub mod Addressing
use cannuccia.Common.{ℕ, ◌*◌, ◌^◌, bit_and, bit_or, u32, ◌<<<◌, ◌==◌, Bool, if◌then◌else◌}

abbrev pub tx_filter_mask : ℕ
tx_filter_mask = 0xFF000FFC

abbrev pub tx_filter_id : ℕ
tx_filter_id = 0xCA000004

abbrev pub rx_filter_mask : ℕ
rx_filter_mask = 0xFF000FFC

abbrev pub rx_filter_id : ℕ
rx_filter_id = 0xCB000004

-- `cnCANDevMask`
unfoldable pub dev_mask : ℕ → ℕ → ℕ
dev_mask mask dev_id = bit_or (bit_or mask (u32 (dev_id <<< 4))) 0x00000004

abbrev pub msgid_mask : ℕ
msgid_mask = 0xFFFFF000

-- The messages of the master, and whatever else arrives.
pub data Command : Type 0 where
  prog_req prog_done unlock select_page seek write check_writes commit_writes unknown : Command

-- `CN_CAN_MSG_*`, master to device. (`unknown` has no identifier of its own.)
unfoldable pub command_id : Command → ℕ
command_id prog_req = 0xCA001000
command_id prog_done = 0xCA002000
command_id unlock = 0xCA003000
command_id select_page = 0xCA004000
command_id seek = 0xCA005000
command_id write = 0xCA006000
command_id check_writes = 0xCA007000
command_id commit_writes = 0xCA008000
command_id unknown = 0

-- The answers of a device.
pub data Answer : Type 0 where
  prog_req_resp prog_done_ack unlocked page_selected writes_checked writes_committed : Answer

-- `CN_CAN_MSG_*`, device to master.
unfoldable pub answer_id : Answer → ℕ
answer_id prog_req_resp = 0xCB001000
answer_id prog_done_ack = 0xCB002000
answer_id unlocked = 0xCB003000
answer_id page_selected = 0xCB004000
answer_id writes_checked = 0xCB007000
answer_id writes_committed = 0xCB008000

-- The `case` of the message pump's `switch` that `inMsgId` selects.
unfoldable pub command : ℕ → Command
unfolding command_id
command msg_id =
    let masked = bit_and msg_id msgid_mask in
    if masked == command_id prog_req
    then prog_req
    else if masked == command_id unlock
    then unlock
    else if masked == command_id select_page
    then select_page
    else if masked == command_id seek
    then seek
    else if masked == command_id write
    then write
    else if masked == command_id check_writes
    then check_writes
    else if masked == command_id commit_writes
    then commit_writes
    else if masked == command_id prog_done
    then prog_done
    else unknown

-- The acceptance test of a CAN filter, as src/common/can.h documents `cnCANInit`.
unfoldable pub accepts : ℕ → ℕ → ℕ → Bool
accepts id mask msg_id = bit_and msg_id mask == bit_and id mask
