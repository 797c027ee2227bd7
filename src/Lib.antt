-- ===== src/Lib.antt =====
-- CANnuccia, a CAN bootloader for AVR and STM32 microcontrollers.
--
-- `main` of src/common/main.c sets up a target's hardware, polls the CAN bus for the messages of
-- src/common/can_msgs.h, collects the bytes of a page of flash in a buffer, and has the target's
-- driver program the page. A timeout before the first PROG_REQ, or a PROG_DONE, ends the loop, and
-- the user program is started. src/avr and src/stm32 implement the same headers for two targets.
--
--   Common      C's comparisons, casts and shifts over ℕ, lists as buffers, lemmas on bits
--   Util        src/common/util.h: little-endian codecs, `cnLog2I`
--   Protocol    src/common/can_msgs.h: identifiers and filters
--   Crc         `cnCRC16` of src/stm32/util.c and of src/avr/util.c
--   Port        the headers of src/common that a target implements, as one record of operations
--   Pump        src/common/main.c over any `Port`. Pump.Handlers has one function for each `case`,
--               `handle` is the `switch`, Pump.step a round of the loop, Pump.run the loop
--   Avr.Flash   src/avr/flash.c over the macros of avr-libc, which are the record Boot;
--               Avr.Flash.Hardware states what the data sheet says of them
--   Avr.Can     src/avr/can.c over the exchange of bytes with the MCP25625, the record Spi: Registers
--               and Setup for the registers, Messages for `cnCANSend` and `cnCANRecv`. Shift has
--               `spiTransfer` over the registers of the SPI, as such a Spi; Controller states what the
--               data sheet says of the instructions
--   Avr.Device  the drivers of the AVR as a `Port`, src/avr/debug.c, and main.c over it: Bootloader
--               on what no run changes, Download on a whole program that is sent
--   Avr.Timer   src/avr/timer.c, and Stm32.Timer src/stm32/timer.c, on the timers' registers
--   Stm32.Flash src/stm32/flash.c over the accesses to its registers, which are the record
--               Controller; Hardware states what the programming manual says of them
--   Stm32.Can   src/stm32/can.c on the registers; Startup has `cnCANInit`, which sets them up
--   Stm32.Debug src/stm32/debug.c
--   Stm32.Device
--               the drivers of the STM32 as a `Port`, whose state is `none` once a call has not
--               returned, and main.c over it: Committing on a page that is sent
--   Stm32.Startup
--               src/stm32/startup.c: `resetHandler`, `enableHSE` and the vector table
--   Tests       the theorems at concrete inputs, on hardware that is made of plain functions
--
-- An integer of C is a natural number, with `% 2 ^ w` where the code can leave its width; a buffer is
-- a list of bytes. The static variables of a file are the fields of a record that its functions take
-- and return, and an `int` that stands for success is a Bool. The hardware under a driver is a type
-- parameter.
--
-- Loops over a buffer are recursion on the list. The loop of `cnLog2I` runs on fuel, the number
-- itself, which is enough since each round halves it; the search of the STM32 timer tries each of its
-- 65536 prescalers at most once. The waits of the flash driver of the STM32 run on fuel and give
-- `none` where it ends; a number above that of the reads of the status for which the hardware is busy
-- is enough. The message loop waits for ever by design: it is a function of the list of the events of
-- a run, polls of the bus and the timeout's interrupt, and `main` is `none` where the list ends before
-- the loop does. Of the timer's interrupt the model has that `onTimeout` stores DONE in `state`, as
-- an event between two rounds that may come at any time, also once the timer is stopped. One that comes
-- inside a round, and that a handler's own store to `state` may overwrite, is left out, and so is the
-- rest of the interrupt's handler: on the AVR it stops the timer, on the STM32 it clears a flag.
--
-- A send has a length and the array that its pointer names, empty for NULL; `outMsgData` keeps its
-- bytes from one message to the next. On the AVR, `cnCANSend` reads eight bytes whatever the length
-- is: Avr.Can.Messages says what it does with them, Sending has a result for reading past an array,
-- and Avr.Device gives it the memory that lies behind the array as a parameter, `beyond`. On the
-- STM32 the registers of the CAN controller hold what was written between the accesses of one call,
-- but for `MSR`, whose reads are steps of the hardware, as are those of the registers that
-- `enableHSE` waits for. Those waits, and that of `spiTransfer`, run on fuel, and a number above
-- that of the reads before the flag is set is enough; so do the loops of `resetHandler`, with the
-- size of a section. Between two calls the registers of the STM32's CAN controller become what the
-- parameter `live` of Stm32.Device says: messages go out and others come in.
--
-- Not modelled: `mcpReadMulti`, which has no caller, `hcf`, which spins, and the time that passes.
pub mod Common
pub mod Util
pub mod Protocol
pub mod Crc
pub mod Port
pub mod Pump
pub mod Avr
pub mod Stm32
pub mod Tests
