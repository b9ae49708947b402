-- ===== src/Api.antt =====
-- The constants of the public headers, include/das/*.h, in one module for each header. A handle
-- (`das_dma_t`, `das_timer_t`, ...) is a struct of one `uint32_t storage` and is modelled by that
-- number. An enumeration whose raw value the code checks is a number with named values, since C lets
-- any value through; a negative value is read as the `unsigned` that the code converts it to.
-- A pointer argument that may be null is an `Option`; an output pointer is a Boolean that tells
-- whether it is given, and the value stored through it is the result of the call.
pub mod Dma
pub mod Time
pub mod Timer
pub mod Spi
pub mod I2c
pub mod Gpio
pub mod Eth
pub mod Board
pub mod Uart
