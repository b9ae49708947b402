-- ===== src/Eth/Driver.antt =====
-- The calls of src/device/stm32h755/eth.c.
use device_abstraction_stack.Base.{
  ℕ, zero, suc, ◌+◌, ◌%◌, Bool, true, false, not, ◌&&◌, ◌||◌, Option, none, some, bit_and, bit_or,
  has_bits, ltb, leb, ◌==◌, if◌then◌else◌,
}
use device_abstraction_stack.Api.Eth.{DasEthConfig, DasEthLinkState, das_eth_max_frame_size}
use device_abstraction_stack.Machine.Reg.{Reg, Barrier}
use device_abstraction_stack.Machine.Platform.{Platform}
use device_abstraction_stack.Machine.Monad.{
  M, invalid_argument, unsupported, not_ready, timeout, io, return, fail, fail_if, or_handle, ◌>>=◌,
  ◌>>◌, get_world, set_eth, read_reg, write_reg, modify_reg, barrier,
}
use device_abstraction_stack.Cache.{das_cache_data_clean, das_cache_data_invalidate}
use device_abstraction_stack.Eth.Handle.{das_eth_is_valid, mac_address_valid}
use device_abstraction_stack.Eth.Phy.{
  eth_wait_limit, no_phy, wait_clear, mdio_configure_clock, discover_phy, configure_phy,
  read_link_state,
}
use device_abstraction_stack.Eth.Mac.{
  enable_and_reset_mac, configure_mac_dma, start_mac_dma, enter_dma_fault_state,
}
use device_abstraction_stack.Eth.Ring.{
  tx_desc_count, rx_desc_count, desc_own, tx_desc_address, rx_desc_address, tx_buffer_address,
  rx_buffer_address, byte_copy, cache_clean_descriptor, cache_invalidate_descriptor,
  initialize_descriptors, recycle_rx_descriptor,
}

abbrev pub min_frame_size : ℕ
min_frame_size = 14

-- FD and LD, which have the same places in descriptors of either ring
abbrev pub desc_whole : ℕ
desc_whole = bit_or 0x2000_0000 0x1000_0000

-- FL of a transmit descriptor and PL of a receive descriptor
abbrev pub desc_length : ℕ
desc_length = 0x7fff

-- Whether a receive descriptor holds a whole frame without an error.
unfoldable pub frame_valid : ℕ → Bool
frame_valid status =
    bit_and status desc_whole == desc_whole
    && not (has_bits status 0x8000)
    && leb min_frame_size (bit_and status desc_length)
    && leb (bit_and status desc_length) das_eth_max_frame_size

module _ ⦃p : Platform⦄ where
  unfoldable pub initialize : DasEthConfig → M (Unit {0})
  initialize config = do
    w ← get_world
    set_eth (record w.eth { g_initialized = false; g_phy_address = no_phy })
    enable_and_reset_mac
    modify_reg Reg.eth_dmamr (λ v. bit_or v p.cmsis.eth.dmamr_swr)
    wait_clear Reg.eth_dmamr p.cmsis.eth.dmamr_swr
    mdio_configure_clock
    configure_mac_dma config
    initialize_descriptors
    discover_phy
    configure_phy
    start_mac_dma
    w' ← get_world
    set_eth (record w'.eth { g_initialized = true })

  unfoldable pub das_eth_init : ℕ → Option DasEthConfig → M (Unit {0})
  das_eth_init eth none = fail invalid_argument
  das_eth_init eth (some config) = do
    fail_if (not (das_eth_is_valid eth) || not (mac_address_valid config.mac)) invalid_argument
    fail_if (not p.cmsis.core.core_cm7) unsupported
    initialize config

  -- `if (!g_initialized) return DAS_ERROR_NOT_READY;`
  unfoldable pub require_initialized : M (Unit {0})
  require_initialized = do w ← get_world; fail_if (not w.eth.g_initialized) not_ready

  -- `if ((ETH->DMACSR & ETH_DMACSR_FBE) != 0u) return enter_dma_fault_state(DAS_ERROR_IO);`
  unfoldable pub check_bus_error : M (Unit {0})
  check_bus_error = do
    dmacsr ← read_reg Reg.eth_dmacsr
    if has_bits dmacsr p.cmsis.eth.dmacsr_fbe then enter_dma_fault_state io else return tt

  -- The loop that ends `das_eth_send`.
  unfoldable pub send_polls : ℕ → ℕ → M (Unit {0})
  send_polls zero current = enter_dma_fault_state timeout
  send_polls (suc left) current = do
    or_handle (cache_invalidate_descriptor (tx_desc_address current)) enter_dma_fault_state
    check_bus_error
    desc3 ← read_reg (Reg.eth_tx_desc current 3)
    if not (has_bits desc3 desc_own) then return tt else send_polls left current

  -- The frame is copied to the buffer of its descriptor, and the descriptor given to the DMA.
  unfoldable pub fill_tx_descriptor : ℕ → ℕ → ℕ → M (Unit {0})
  fill_tx_descriptor index frame length = do
    byte_copy (tx_buffer_address index) frame length
    das_cache_data_clean (tx_buffer_address index) length
    write_reg (Reg.eth_tx_desc index 0) (tx_buffer_address index)
    write_reg (Reg.eth_tx_desc index 1) 0
    write_reg (Reg.eth_tx_desc index 2) (bit_and length 0x3fff)
    write_reg (Reg.eth_tx_desc index 3)
        (bit_or (bit_or (bit_and length desc_length) 0x2000_0000) 0x1000_0000)
    barrier Barrier.dmb
    modify_reg (Reg.eth_tx_desc index 3) (λ v. bit_or v desc_own)
    cache_clean_descriptor (tx_desc_address index)
    barrier Barrier.dsb

  -- The next descriptor is announced, and the current one is waited for.
  unfoldable pub kick_tx : ℕ → M (Unit {0})
  kick_tx current = do
    w ← get_world
    let next = (current + 1) % tx_desc_count
    set_eth (record w.eth { g_tx_index = next })
    write_reg Reg.eth_dmactdtpr (tx_desc_address next)
    send_polls eth_wait_limit current

  unfoldable pub send_checked : ℕ → ℕ → M (Unit {0})
  send_checked frame length = do
    require_initialized
    link ← read_link_state
    fail_if (not link.up) not_ready
    check_bus_error
    w ← get_world
    let index = w.eth.g_tx_index
    cache_invalidate_descriptor (tx_desc_address index)
    desc3 ← read_reg (Reg.eth_tx_desc index 3)
    fail_if (has_bits desc3 desc_own) not_ready
    fill_tx_descriptor index frame length
    kick_tx index

  unfoldable pub das_eth_send : ℕ → ℕ → ℕ → M (Unit {0})
  das_eth_send eth frame length = do
    fail_if
        (not (das_eth_is_valid eth)
          || frame == 0
          || ltb length min_frame_size
          || ltb das_eth_max_frame_size length)
        invalid_argument
    fail_if (not p.cmsis.core.core_cm7) unsupported
    send_checked frame length

  -- `recycle_rx_descriptor(index)`, and the step to the next descriptor.
  unfoldable pub release_rx : ℕ → M (Unit {0})
  release_rx index = do
    recycle_rx_descriptor index
    w ← get_world
    set_eth (record w.eth { g_rx_index = (index + 1) % rx_desc_count })

  -- A frame that is not valid, or does not fit, is dropped.
  unfoldable pub drop_frame : ℕ → Bool → M ℕ
  drop_frame index valid = do release_rx index; fail (if valid then invalid_argument else io)

  unfoldable pub take_frame : ℕ → ℕ → ℕ → M ℕ
  take_frame index buffer length = do
    das_cache_data_invalidate (rx_buffer_address index) length
    byte_copy buffer (rx_buffer_address index) length
    release_rx index
    return length

  -- What a descriptor holds that the DMA has given back, by its status word.
  unfoldable pub receive_frame : ℕ → ℕ → ℕ → ℕ → M ℕ
  receive_frame index buffer capacity status =
      let length = bit_and status desc_length in
      if not (frame_valid status) || ltb capacity length
      then drop_frame index (frame_valid status)
      else take_frame index buffer length

  unfoldable pub receive_checked : ℕ → ℕ → M ℕ
  receive_checked buffer capacity = do
    require_initialized
    check_bus_error
    w ← get_world
    let index = w.eth.g_rx_index
    cache_invalidate_descriptor (rx_desc_address index)
    desc3 ← read_reg (Reg.eth_rx_desc index 3)
    if has_bits desc3 desc_own then return 0 else (do
      status ← read_reg (Reg.eth_rx_desc index 3)
      receive_frame index buffer capacity status)

  -- The Boolean says whether `received` is given; it receives 0 when no frame is there.
  unfoldable pub das_eth_receive : ℕ → ℕ → ℕ → Bool → M ℕ
  das_eth_receive eth buffer capacity received = do
    fail_if (not (das_eth_is_valid eth) || buffer == 0 || capacity == 0 || not received)
        invalid_argument
    fail_if (not p.cmsis.core.core_cm7) unsupported
    receive_checked buffer capacity

  -- The Boolean says whether `state` is given.
  unfoldable pub das_eth_link_state : ℕ → Bool → M DasEthLinkState
  das_eth_link_state eth state = do
    fail_if (not (das_eth_is_valid eth) || not state) invalid_argument
    fail_if (not p.cmsis.core.core_cm7) unsupported
    w ← get_world
    fail_if (not w.eth.g_initialized || w.eth.g_phy_address == no_phy) not_ready
    read_link_state
