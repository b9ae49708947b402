-- ===== src/Tests.antt =====
-- Tests and examples on a concrete board: the theorems applied where their hypotheses hold.
mod Bits
mod Board
mod DmaRuns
mod TimeRuns
mod RateRuns
mod Port
mod BusRuns
mod PinRuns
mod EthRuns
mod StartupRuns
