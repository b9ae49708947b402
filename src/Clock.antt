-- ===== src/Clock.antt =====
-- src/device/stm32h755/clock.c and clock_internal.h: the clock tree of the STM32H755.
pub mod Dividers
pub mod Tree
pub mod Config
pub mod Apply
pub mod Division
pub mod Envelope
pub mod Observed
