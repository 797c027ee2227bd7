-- ===== src/Stm32.antt =====
-- The STM32 target: src/stm32.
pub mod Can
pub mod Timer
pub mod Startup
pub mod Debug
pub mod Device
pub mod Flash
