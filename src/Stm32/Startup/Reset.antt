-- ===== src/Stm32/Startup/Reset.antt =====
-- What `resetHandler` of src/stm32/startup.c has done when it calls `main`.
use cannuccia.Common.{ℕ, ◌+◌, ◌-◌, ◌≤◌, ◌<◌, ◌≡◌, ◌⊎◌}
use cannuccia.Stm32.Startup.{Memory, Layout}

-- `.bss` and what `.data` is loaded from lie outside of `.data`.
pub record IsLaidOut (l : Layout) : Type 0 where
  pub load_apart :
      (l.data_end ≤ l.data_load_addr)
      ⊎ (l.data_load_addr + (l.data_end - l.data_start) ≤ l.data_start)
  pub bss_apart : (l.data_end ≤ l.bss_start) ⊎ (l.bss_end ≤ l.data_start)

-- The C program finds its variables as they are initialised, and the rest of the memory as it was.
pub record IsInitialised (l : Layout) (before after : Memory) : Type 0 where
  pub data_section :
      (a : ℕ)
      → l.data_start ≤ a
      → a < l.data_end
      → after a ≡ before (l.data_load_addr + (a - l.data_start))
  pub bss_section : (a : ℕ) → l.bss_start ≤ a → a < l.bss_end → after a ≡ 0
  pub others :
      (a : ℕ)
      → (a < l.data_start) ⊎ (l.data_end ≤ a)
      → (a < l.bss_start) ⊎ (l.bss_end ≤ a)
      → after a ≡ before a
