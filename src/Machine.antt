-- ===== src/Machine.antt =====
-- What the drivers run on: CMSIS and the hardware as a parameter, the state of a firmware image, and
-- the monad of the driver calls.
pub mod Reg
pub mod Cmsis
pub mod Platform
pub mod World
pub mod Monad
pub mod Poll
pub mod Success
