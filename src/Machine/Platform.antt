-- ===== src/Machine/Platform.antt =====
-- The hardware and CMSIS as a parameter of the model. A volatile access may change the state of the
-- hardware and may return anything: nothing is assumed here of what a register does.
use device_abstraction_stack.Base.{ℕ}
use device_abstraction_stack.Machine.Reg.{Reg, Barrier}
use device_abstraction_stack.Machine.Cmsis.{Cmsis}

-- Where the linker puts the descriptors and buffers of Ethernet.
pub record EthLayout : Type 0 where
  pub tx_desc : ℕ
  pub rx_desc : ℕ
  pub tx_buffers : ℕ
  pub rx_buffers : ℕ

pub record Platform : Type 1 where
  pub State : Type 0
  pub read : Reg → State → ℕ × State
  pub write : Reg → ℕ → State → State
  pub barrier : Barrier → State → State
  -- A byte of memory, through a pointer of the application: the address, and for a store the byte.
  pub load_byte : ℕ → State → ℕ × State
  pub store_byte : ℕ → ℕ → State → State
  -- `__get_PRIMASK`, `__set_PRIMASK`, `__disable_irq`
  pub get_primask : State → ℕ × State
  pub set_primask : ℕ → State → State
  pub disable_irq : State → State
  -- `SysTick_Config`
  pub systick_config : ℕ → State → ℕ × State
  -- `NVIC_EnableIRQ`, `NVIC_DisableIRQ`, `NVIC_GetEnableIRQ`, and so on
  pub nvic_enable : ℕ → State → State
  pub nvic_disable : ℕ → State → State
  pub nvic_get_enable : ℕ → State → ℕ × State
  pub nvic_set_priority : ℕ → ℕ → State → State
  pub nvic_get_priority : ℕ → State → ℕ × State
  pub nvic_set_pending : ℕ → State → State
  pub nvic_clear_pending : ℕ → State → State
  pub nvic_get_pending : ℕ → State → ℕ × State
  -- `SCB_EnableDCache`, `SCB_DisableDCache`, and the maintenance of a range: address and size
  pub scb_enable_dcache : State → State
  pub scb_disable_dcache : State → State
  pub scb_clean_dcache : ℕ → ℕ → State → State
  pub scb_invalidate_dcache : ℕ → ℕ → State → State
  pub scb_clean_invalidate_dcache : ℕ → ℕ → State → State
  -- A time source that the application installed: the function, its context.
  pub call_source : ℕ → ℕ → State → ℕ × State
  -- How many SysTick interrupts have been taken since the last read of the counter.
  pub systick_taken : State → ℕ × State
  pub eth_layout : EthLayout
  pub cmsis : Cmsis
