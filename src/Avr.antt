-- ===== src/Avr.antt =====
-- The AVR target: src/avr.
pub mod Flash
pub mod Can
pub mod Timer
pub mod Device
