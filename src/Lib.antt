-- ===== src/Lib.antt =====
-- Verification of DAS, the device abstraction stack: a C library that gives firmware for the
-- STM32H755 one interface to time, DMA, clocks, timers, serial buses and pins.
--
-- The program. Public headers in include/das name opaque handles and functions. Behind them stand
-- the common time functions (src/common/time.c), the Cortex-M layer (src/mcu/cortex_m) and the device
-- drivers (src/device/stm32h755), and above them the policy of the board (src/board/nucleo_h755zi_q),
-- which names the pins and the clock profiles. The drivers share three things: the CMSIS registers, the monotonic
-- time, from which every finite timeout is measured, and the clock tree, from which every rate is
-- derived. SPI transfers also claim DMA streams.
--
-- The files.
--   Base: names of the standard library, Boolean tests, words of C (`u32`, `<<<`, `bit_clear`), bits,
--     rounded quotients.
--   Api: the constants and records of include/das.
--   Machine: the hardware. `Platform` is a parameter: a state with reads and writes of registers
--     that may do anything, the functions of CMSIS, the calls of an application's time source, and
--     the constants of the device header. `World` adds the static variables of the drivers, and `M`
--     is the monad of the calls: a result or an error of `das_result_t`, and the new world.
--   Time: src/common/time.c and src/mcu/cortex_m/time.c. Dma: src/device/stm32h755/dma.c and
--     dma_handle_internal.h. Clock: clock.c. Power: power.c. Timer: timer.c. Spi: spi.c. Uart: uart.c.
--     I2c: i2c.c. Eth: eth.c. Gpio: gpio.c and gpio_irq.c. Cache, Irq and Startup:
--     src/mcu/cortex_m/cache.c, irq.c and startup.c.
--     Board: src/board/nucleo_h755zi_q, with its clock profiles, LEDs, button and routes.
--     A definition has the name of its C function; a piece of a function that stands alone here, such
--     as a loop, has a name and a comment of its own.
--   Tests: a concrete quiet board, and the theorems applied to it.
--
-- Conventions. Numbers are natural numbers with the wrap-around of C written out. A handle is the
-- number that it stores; a pointer of the application is an address, with 0 for null, or an `Option`
-- for a structure that is passed in. An output pointer is a Boolean that says whether it is given,
-- and what is stored through it is the result. A condition that reads registers one after the other
-- is a chain of reads. The words of the Ethernet descriptors, which are volatile and shared with the
-- DMA, are registers of `Reg`; the addresses of the descriptors and buffers are parameters.
--
-- Loops. The polls that the source bounds (100000 polls of a stopping stream, `wait_limit` polls of
-- the clocks, 1000000 polls of a UART or of the Ethernet MAC) are structural recursions on that
-- bound. The loops that it does not bound (delays and waits) take fuel, and answer `spinning` when it
-- is used up; the theorems about `das_delay_ms`, the wait for a DMA transfer, UART reads and writes,
-- and I2C transfers give enough of it. So do the loops over the sections at startup, which answer
-- `none`, and the theorem about them.
--
-- Assumptions. An application's time source reports a time that never goes back, moves on after a
-- bounded number of equal answers, and is read at least once in each half of its range (`Ticking`);
-- for the waits, accesses to registers and memory leave what it last reported alone (`Apart`).
-- Calls of the DMA driver are not interleaved: the claim and the release of a stream are critical
-- sections in the source. The interrupt handler of SysTick runs at reads of its counter.
--
-- The theorem about the configuration of pins takes ports that store what is written to their
-- settings while their clock is enabled (`Storage`); those about the timing of I2C take the places of
-- the fields of TIMINGR in the reference manual (`TimingrDocumented`). Addresses have 32 bits; memory at
-- startup is by words.
--
-- Not modelled: the reset handler around the initialisation of the sections, which sets two core
-- registers and calls `main`, the vector table, and the examples, tests and scripts.
pub mod Base
pub mod Api
pub mod Machine
pub mod Startup
pub mod Time
pub mod Dma
pub mod Clock
pub mod Timer
pub mod Power
pub mod Spi
pub mod I2c
pub mod Cache
pub mod Irq
pub mod Gpio
pub mod Eth
pub mod Board
pub mod Uart
mod Tests
