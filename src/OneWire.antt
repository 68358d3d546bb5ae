-- ===== src/OneWire.antt =====
-- The non-blocking 1-Wire driver: app_setup/driver/onewire_nb.c (app_main/driver/onewire_nb.c differs
-- from it in debug counters and in how the hardware timer is given its function), with onewire_nb.h
-- and maxim28.h.
pub mod Bytes
pub mod Driver
pub mod Fill
pub mod Machine
pub mod Missed
pub mod Read
pub mod Reset
pub mod Runs
pub mod Safety
pub mod Sensor
mod Tests
pub mod Wave
pub mod Decode
pub mod Cycle
pub mod Whole
