-- ===== src/Avr/Can.antt =====
-- src/avr/can.c: the MCP25625 CAN controller behind SPI.
pub mod Link
pub mod Registers
pub mod Setup
pub mod Shift
pub mod Controller
pub mod Configuring
pub mod Messages
pub mod Identifier
pub mod Send
pub mod Receiving
pub mod Commands
