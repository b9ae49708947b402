-- ===== src/Dma.antt =====
-- src/device/stm32h755/dma.c: the DMA1 streams and their DMAMUX1 channels. The static arrays are
-- `DmaVars`; the registers of stream `i` are `Reg.dma_cr i` and so on, so `stream_from_index` and
-- `dmamux_from_index` are the index itself, which is below 8 at every call.
pub mod Handle
pub mod Stream
pub mod Driver
pub mod Token
pub mod Frame
pub mod Effect
pub mod Step
pub mod Live
pub mod Invariant
pub mod Stale
pub mod Waits
pub mod Timeout
