-- ===== src/Tests.antt =====
-- The theorems at concrete inputs, on hardware that is made of plain functions.
mod Bench
mod Chip
mod Bank
mod Wire
mod Devices
mod Runs
mod Codecs
mod Pages
mod Buses
mod Delays
mod Flashing
mod Startups
mod Sessions
mod Shifts
mod Controller
