-- ===== src/Eth.antt =====
-- src/device/stm32h755/eth.c: the Ethernet MAC with its descriptor rings and the LAN8742 PHY.
pub mod Handle
pub mod Phy
pub mod Ring
pub mod Mac
pub mod Driver
pub mod Receive
pub mod Refusal
pub mod Stops
pub mod Fault
pub mod Frame
pub mod Indices
pub mod Calls
