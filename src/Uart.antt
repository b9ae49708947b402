-- ===== src/Uart.antt =====
-- src/device/stm32h755/uart.c: USART1 and USART3, with polled reads and writes. Pointers are
-- addresses, with 0 for the null pointer. The registers of a port are those of its number, which is
-- the storage of its handle.
pub mod Frame
pub mod Setup
pub mod Wait
pub mod Polled
pub mod Format
pub mod Timeout
pub mod Answered
