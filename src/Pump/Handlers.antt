-- ===== src/Pump/Handlers.antt =====
-- The `case`s of the message pump of src/common/main.c, each as a function on the pump's state.
use cannuccia.Common.{
  ℕ, ◌+◌, ◌/◌, ◌%◌, ◌^◌, bit_and, Bool, true, false, Option, none, some, List, [], ◌∷◌, ◌++◌,
  length, set, u8, u16, ltb, ◌==◌, if◌then◌else◌,
}
use cannuccia.Util.{read_u32_le, write_u16_le, write_u32_le, log2_builtin}
use cannuccia.Protocol.{
  Command, prog_req, prog_done, unlock, select_page, seek, write, check_writes, commit_writes,
  unknown, Answer, prog_req_resp, prog_done_ack, page_selected, writes_checked, writes_committed,
  answer_id, dev_mask,
}
use cannuccia.Protocol
use cannuccia.Port.{Port}

-- `state`
pub data State : Type 0 where
  idle locked unlocked done : State

abbrev pub is_unlocked : State → Bool
is_unlocked unlocked = true
is_unlocked _ = false

-- `selPage`
pub record Page : Type 0 where
  pub addr : ℕ
  pub write_offset : ℕ
  pub writes : List ℕ

-- The static variables of main.c, `outMsgData` of `main`, and the hardware under them.
pub record Pump (D : Type 0) : Type 0 where
  pub state : State
  pub sel_page : Page
  pub out_data : List ℕ
  pub device : D

-- `outMsgData` after its first bytes are written.
unfoldable pub overwrite : List ℕ → List ℕ → List ℕ
overwrite [] out = out
overwrite (b ∷ bs) [] = []
overwrite (b ∷ bs) (_ ∷ out) = b ∷ overwrite bs out

-- The loop of `CN_CAN_MSG_WRITE` over the bytes received.
unfoldable pub write_bytes : ℕ → List ℕ → Page → Page
write_bytes size [] p = p
write_bytes size (b ∷ bs) p =
    let rest =
      write_bytes size bs
        (record p { write_offset = p.write_offset + 1; writes = set p.writes p.write_offset b }) in
    if ltb p.write_offset size then rest else p

module _ {D : Type 0} (port : Port D) (dev_id : ℕ) where
  open port use {page_size, page_mask, address_bits}

  -- `outMsgId = cnCANDevMask(...); cnCANSend(outMsgId, len, data)`, where `data` points to `bytes`.
  unfoldable pub send : Answer → ℕ → List ℕ → D → D
  send a len bytes d = (port.can_send (dev_mask (answer_id a) dev_id) len bytes d).0

  -- A send of the bytes just written to the start of `outMsgData`, and one of `0, NULL`.
  unfoldable pub answer : Answer → List ℕ → Pump D → Pump D
  unfolding send overwrite
  answer a bytes s =
      let out = overwrite bytes s.out_data in
      record s { out_data = out; device = send a (length bytes) out s.device }

  unfoldable pub notify : Answer → Pump D → Pump D
  unfolding send
  notify a s = record s { device = send a 0 [] s.device }

  -- `(uint8_t)cnLog2I(...)`, where -1 becomes 0xFF
  log2_byte : Option ℕ → ℕ
  log2_byte none = 0xFF
  log2_byte (some k) = u8 k

  -- The five bytes of a PROG_REQ_RESP.
  unfoldable pub stats : List ℕ
  unfolding log2_byte
  stats =
      log2_byte (log2_builtin port.ctz page_size)
      ∷ (write_u16_le (u16 (port.flash_size / page_size)) ++ write_u16_le port.e_machine)

  unfoldable pub on_prog_req : State → Pump D → Pump D
  unfolding answer stats
  on_prog_req idle s =
      answer prog_req_resp stats (record s { state = locked; device = port.timer_stop s.device })
  on_prog_req _ s = answer prog_req_resp stats s

  -- `unlocked` is the outcome of `cnFlashUnlock`, which is called in the state LOCKED only.
  unfoldable pub on_unlock : State → Pump D → Pump D
  unfolding notify
  on_unlock idle s = s
  on_unlock locked s =
      let (d, ok) = port.flash_unlock s.device in
      if ok
      then notify Protocol.unlocked (record s { state = unlocked; device = d })
      else record s { device = d }
  on_unlock _ s = notify Protocol.unlocked (record s { state = unlocked })

  -- `newPageAddr`, and its cast to `uintptr_t`
  unfoldable pub page_address : List ℕ → ℕ
  page_address bytes = bit_and (read_u32_le bytes) page_mask % 2 ^ address_bits

  unfoldable pub on_select_page : List ℕ → Pump D → Pump D
  unfolding answer page_address
  on_select_page bytes s =
      let addr = page_address bytes in
      if length bytes == 4
      then if port.page_writeable addr
        then answer page_selected (write_u32_le addr)
            (record s { sel_page = record (s.sel_page) { addr = addr } })
        else s
      else s

  unfoldable pub on_seek : List ℕ → Pump D → Pump D
  on_seek bytes s =
      let offset = read_u32_le bytes in
      if length bytes == 4
      then if ltb offset page_size
        then record s { sel_page = record (s.sel_page) { write_offset = offset } }
        else s
      else s

  unfoldable pub on_write : List ℕ → Pump D → Pump D
  unfolding write_bytes
  on_write bytes s = record s { sel_page = write_bytes page_size bytes s.sel_page }

  unfoldable pub on_check_writes : Pump D → Pump D
  unfolding answer
  on_check_writes s =
      answer writes_checked (write_u16_le (port.crc16 page_size s.sel_page.writes)) s

  -- The two `break`s of COMMIT_WRITES leave the device as the failed call left it.
  unfoldable pub end_commit : Pump D → D × Bool → Pump D
  unfolding answer
  end_commit s (d, false) = record s { device = d }
  end_commit s (d, true) =
      answer writes_committed (write_u32_le s.sel_page.addr) (record s { device = d })

  unfoldable pub fill_commit : Pump D → D × Bool → Pump D
  unfolding end_commit
  fill_commit s (d, false) = record s { device = d }
  fill_commit s (d, true) =
      end_commit s (port.end_write (port.fill 0 page_size s.sel_page.writes d).0)

  unfoldable pub on_commit_writes : Pump D → Pump D
  unfolding fill_commit
  on_commit_writes s =
      if is_unlocked s.state then fill_commit s (port.begin_write s.sel_page.addr s.device) else s

  unfoldable pub on_prog_done : Pump D → Pump D
  unfolding notify
  on_prog_done s = record (notify prog_done_ack s) { state = done }

  -- The `switch` of the message pump.
  unfoldable pub handle : Command → List ℕ → Pump D → Pump D
  unfolding on_prog_req on_unlock on_select_page on_seek on_write on_check_writes on_commit_writes
      on_prog_done
  handle prog_req bytes s = on_prog_req s.state s
  handle unlock bytes s = on_unlock s.state s
  handle select_page bytes s = on_select_page bytes s
  handle seek bytes s = on_seek bytes s
  handle write bytes s = on_write bytes s
  handle check_writes bytes s = on_check_writes s
  handle commit_writes bytes s = on_commit_writes s
  handle prog_done bytes s = on_prog_done s
  handle unknown bytes s = s
