-- ===== src/Spi.antt =====
-- src/device/stm32h755/spi.c: the controller SPI1 with polled and DMA transfers. Pointers are
-- addresses, with 0 for the null pointer.
pub mod Prescaler
pub mod Setup
pub mod Wait
pub mod Polled
pub mod Paired
pub mod Rate
pub mod Chunks
