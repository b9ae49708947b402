-- ===== src/Gpio.antt =====
-- src/device/stm32h755/gpio.c and gpio_irq.c: the pins and their interrupt lines.
pub mod Pins
pub mod Setup
pub mod Level
pub mod Interrupt
pub mod Fields
pub mod Storage
pub mod Configured
pub mod Isolated
