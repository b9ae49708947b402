-- ===== src/Api/Dma.antt =====
-- include/das/dma.h
use device_abstraction_stack.Base.{ℕ, Bool, uint32_max}

abbrev pub das_dma_invalid : ℕ
das_dma_invalid = uint32_max

abbrev pub das_dma_wait_forever : ℕ
das_dma_wait_forever = uint32_max

abbrev pub das_dma_peripheral_to_memory : ℕ
das_dma_peripheral_to_memory = 0

abbrev pub das_dma_memory_to_peripheral : ℕ
das_dma_memory_to_peripheral = 1

abbrev pub das_dma_memory_to_memory : ℕ
das_dma_memory_to_memory = 2

abbrev pub das_dma_width_byte : ℕ
das_dma_width_byte = 1

abbrev pub das_dma_width_halfword : ℕ
das_dma_width_halfword = 2

abbrev pub das_dma_width_word : ℕ
das_dma_width_word = 4

-- `das_dma_state_t`
pub data DasDmaState : Type 0 where
  idle busy complete error : DasDmaState

-- `das_dma_config_t`
pub record DasDmaConfig : Type 0 where
  pub direction : ℕ
  pub source_width : ℕ
  pub destination_width : ℕ
  pub source_increment : Bool
  pub destination_increment : Bool
