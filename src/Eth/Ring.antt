-- ===== src/Eth/Ring.antt =====
-- The descriptor rings of src/device/stm32h755/eth.c. The words of a descriptor are volatile, and its
-- padding follows them.
use device_abstraction_stack.Base.{ℕ, zero, suc, ◌+◌, ◌-◌, ◌*◌, bit_or, u8}
use device_abstraction_stack.Machine.Reg.{Reg, Barrier}
use device_abstraction_stack.Machine.Platform.{Platform}
use device_abstraction_stack.Machine.Monad.{
  M, return, ◌>>=◌, ◌>>◌, or_handle, get_world, set_eth, write_reg, barrier, ask_hw, do_hw,
}
use device_abstraction_stack.Cache.{das_cache_data_clean, das_cache_data_invalidate}
use device_abstraction_stack.Eth.Mac.{eth_buffer_size, enter_dma_fault_state}

abbrev pub tx_desc_count : ℕ
tx_desc_count = 4

abbrev pub rx_desc_count : ℕ
rx_desc_count = 4

-- `sizeof(stm32h755_eth_descriptor_t)`
abbrev pub descriptor_size : ℕ
descriptor_size = 32

-- OWN, and OWN with BUF1V
abbrev pub desc_own : ℕ
desc_own = 0x8000_0000

abbrev pub rx_given : ℕ
rx_given = bit_or desc_own 0x0100_0000

module _ ⦃p : Platform⦄ where
  -- `address32` of the elements of the static arrays
  abbrev pub tx_desc_address : ℕ → ℕ
  tx_desc_address i = p.eth_layout.tx_desc + descriptor_size * i

  abbrev pub rx_desc_address : ℕ → ℕ
  rx_desc_address i = p.eth_layout.rx_desc + descriptor_size * i

  abbrev pub tx_buffer_address : ℕ → ℕ
  tx_buffer_address i = p.eth_layout.tx_buffers + eth_buffer_size * i

  abbrev pub rx_buffer_address : ℕ → ℕ
  rx_buffer_address i = p.eth_layout.rx_buffers + eth_buffer_size * i

  -- The loop of `byte_copy` at `i`, with `left` bytes to go.
  unfoldable pub copy_from : ℕ → ℕ → ℕ → ℕ → M (Unit {0})
  copy_from zero destination source i = return tt
  copy_from (suc left) destination source i = do
    value ← ask_hw (p.load_byte (source + i))
    do_hw (p.store_byte (destination + i) (u8 value))
    copy_from left destination source (i + 1)

  unfoldable pub byte_copy : ℕ → ℕ → ℕ → M (Unit {0})
  byte_copy destination source size = copy_from size destination source 0

  unfoldable pub cache_clean_descriptor : ℕ → M (Unit {0})
  cache_clean_descriptor descriptor = das_cache_data_clean descriptor descriptor_size

  unfoldable pub cache_invalidate_descriptor : ℕ → M (Unit {0})
  cache_invalidate_descriptor descriptor = das_cache_data_invalidate descriptor descriptor_size

  -- The loops on the padding at `word`, with `left` words to go; `desc` is a descriptor by its words.
  unfoldable pub clear_padding : ℕ → ℕ → (ℕ → Reg) → M (Unit {0})
  clear_padding zero word desc = return tt
  clear_padding (suc left) word desc = do
    write_reg (desc (4 + word)) 0
    clear_padding left (word + 1) desc

  -- The loops of `initialize_descriptors` at `i`, with `left` descriptors to go.
  unfoldable pub initialize_tx : ℕ → ℕ → M (Unit {0})
  initialize_tx zero i = return tt
  initialize_tx (suc left) i = do
    write_reg (Reg.eth_tx_desc i 0) 0
    write_reg (Reg.eth_tx_desc i 1) 0
    write_reg (Reg.eth_tx_desc i 2) 0
    write_reg (Reg.eth_tx_desc i 3) 0
    clear_padding 4 0 (Reg.eth_tx_desc i)
    cache_clean_descriptor (tx_desc_address i)
    initialize_tx left (i + 1)

  -- A receive descriptor is given to the DMA.
  unfoldable pub give_rx_descriptor : ℕ → M (Unit {0})
  give_rx_descriptor i = do
    write_reg (Reg.eth_rx_desc i 0) (rx_buffer_address i)
    write_reg (Reg.eth_rx_desc i 1) 0
    write_reg (Reg.eth_rx_desc i 2) 0
    write_reg (Reg.eth_rx_desc i 3) rx_given

  unfoldable pub initialize_rx : ℕ → ℕ → M (Unit {0})
  initialize_rx zero i = return tt
  initialize_rx (suc left) i = do
    das_cache_data_invalidate (rx_buffer_address i) eth_buffer_size
    give_rx_descriptor i
    clear_padding 4 0 (Reg.eth_rx_desc i)
    cache_clean_descriptor (rx_desc_address i)
    initialize_rx left (i + 1)

  unfoldable pub initialize_descriptors : M (Unit {0})
  initialize_descriptors = do
    w ← get_world
    set_eth (record w.eth { g_tx_index = 0; g_rx_index = 0 })
    initialize_tx tx_desc_count 0
    initialize_rx rx_desc_count 0
    barrier Barrier.dsb
    write_reg Reg.eth_dmactdrlr (tx_desc_count - 1)
    write_reg Reg.eth_dmactdlar (tx_desc_address 0)
    write_reg Reg.eth_dmactdtpr (tx_desc_address 0)
    write_reg Reg.eth_dmacrdrlr (rx_desc_count - 1)
    write_reg Reg.eth_dmacrdlar (rx_desc_address 0)
    write_reg Reg.eth_dmacrdtpr (rx_desc_address (rx_desc_count - 1))

  unfoldable pub recycle_rx_descriptor : ℕ → M (Unit {0})
  recycle_rx_descriptor index = do
    or_handle (das_cache_data_invalidate (rx_buffer_address index) eth_buffer_size)
        enter_dma_fault_state
    give_rx_descriptor index
    barrier Barrier.dmb
    or_handle (cache_clean_descriptor (rx_desc_address index)) enter_dma_fault_state
    barrier Barrier.dsb
    write_reg Reg.eth_dmacrdtpr (rx_desc_address index)
