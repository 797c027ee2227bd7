-- ===== src/Port.antt =====
-- What `main` takes from a target: the functions that src/common/flash.h, can.h, timer.h, debug.h
-- and util.h declare, and the constants that the toolchain files define. `D` is the state of the
-- hardware and of the target's static variables.
use cannuccia.Common.{ℕ, Bool, Option, List}

pub record Port (D : Type 0) : Type 0 where
  -- `CN_FLASH_PAGE_SIZE`, `CN_FLASH_PAGE_MASK`, `CN_E_MACHINE` and the width of `uintptr_t`
  pub page_size : ℕ
  pub page_mask : ℕ
  pub e_machine : ℕ
  pub address_bits : ℕ
  -- `__builtin_ctz`
  pub ctz : ℕ → ℕ
  pub crc16 : ℕ → List ℕ → ℕ
  -- flash.h; the truth value is the `int` that is returned
  pub flash_size : ℕ
  pub flash_unlock : D → D × Bool
  pub flash_lock : D → D × Bool
  pub page_writeable : ℕ → Bool
  pub begin_write : ℕ → D → D × Bool
  pub fill : ℕ → ℕ → List ℕ → D → D × ℕ
  pub end_write : D → D × Bool
  pub read_dev_id : D → ℕ
  pub jump_to_program : D → D
  -- can.h; `none` is a negative result, and a message is its identifier and the bytes read. A send
  -- has a length, and the array that `data` points to, empty for a null pointer.
  pub can_init : ℕ → ℕ → D → D × Bool
  pub can_send : ℕ → ℕ → List ℕ → D → D × Option ℕ
  pub can_recv : ℕ → D → D × Option (ℕ × List ℕ)
  -- timer.h, with `onTimeout` of main.c as the handler
  pub timer_start : ℕ → Bool → D → D × Bool
  pub timer_stop : D → D
  -- The eight bytes that `outMsgData` of `main` holds before it is written.
  pub uninitialised : List ℕ
  -- debug.h
  pub debug_init : D → D × Bool
  pub debug_led : Bool → D → D
