-- ===== src/Machine/World.antt =====
-- The state of a firmware image: the hardware and the static variables of the drivers.
use device_abstraction_stack.Base.{ℕ, Bool, Option, Table}
use device_abstraction_stack.Api.Dma.{DasDmaConfig}
use device_abstraction_stack.Machine.Platform.{Platform}

-- A non-null `das_time_source_fn_t`: the SysTick backend, or a function of the application.
pub data TimeSource : Type 0 where
  systick_now_ms : TimeSource
  external : ℕ → TimeSource

-- The static variables of src/common/time.c and src/mcu/cortex_m/time.c.
pub record TimeVars : Type 0 where
  pub g_time_source : Option TimeSource
  pub g_time_source_context : ℕ
  pub g_systick_ms : ℕ

-- The static arrays of src/device/stm32h755/dma.c, by stream index.
pub record DmaVars : Type 0 where
  pub g_dma_claimed : Table Bool
  pub g_dma_generation : Table ℕ
  pub g_dma_configured : Table Bool
  pub g_dma_active : Table Bool
  pub g_dma_config : Table DasDmaConfig

-- The static variables of src/device/stm32h755/eth.c, less its descriptors and buffers.
pub record EthVars : Type 0 where
  pub g_initialized : Bool
  pub g_phy_address : ℕ
  pub g_tx_index : ℕ
  pub g_rx_index : ℕ

pub record World (p : Platform) : Type 0 where
  pub hw : p.State
  pub time : TimeVars
  pub dma : DmaVars
  pub eth : EthVars
