-- ===== src/I2c.antt =====
-- src/device/stm32h755/i2c.c: the controller I2C1 as a bus master.
pub mod Timing
pub mod Wait
pub mod Setup
pub mod Transfer
mod Timeout
mod Phases
pub mod Answered
pub mod Rate
pub mod Readback
pub mod Offered
