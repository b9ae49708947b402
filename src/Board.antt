-- ===== src/Board.antt =====
-- src/board/nucleo_h755zi_q: the policy of the board NUCLEO-H755ZI-Q.
pub mod Profiles
pub mod Leds
pub mod Pins
pub mod Routes
pub mod Button
pub mod Ethernet
pub mod Supported
