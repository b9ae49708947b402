-- ===== src/Spi/Paired.antt =====
-- The DMA transfer of src/device/stm32h755/spi.c, over a pair of streams.
use device_abstraction_stack.Base.{
  ℕ, zero, suc, ◌+◌, Bool, true, false, not, ◌&&◌, ◌||◌, some, bit_and, bit_or, bit_clear, has_bits,
  ◌==◌, ◌!=◌, if◌then◌else◌,
}
use device_abstraction_stack.Api.Dma.{
  DasDmaConfig, DasDmaState, das_dma_peripheral_to_memory, das_dma_memory_to_peripheral,
  das_dma_width_byte,
}
use device_abstraction_stack.Api.Spi.{das_spi_wait_forever}
use device_abstraction_stack.Machine.Reg.{Reg, Barrier}
use device_abstraction_stack.Machine.Platform.{Platform}
use device_abstraction_stack.Machine.Monad.{
  M, invalid_argument, timeout, io, return, fail, spin, fail_if, ignore, or_cleanup, ◌>>=◌, ◌>>◌,
  read_reg, write_reg, modify_reg, barrier,
}
use device_abstraction_stack.Dma.Stream.{stm32h755_dma_set_request}
use device_abstraction_stack.Dma.Driver.{
  das_dma_acquire, das_dma_release, das_dma_is_valid, das_dma_configure, das_dma_start,
  das_dma_get_state, das_dma_abort, dma_request_spi1_rx, dma_request_spi1_tx,
}
use device_abstraction_stack.Spi.Setup.{resolve_spi, error_flags, clear_flags}
use device_abstraction_stack.Spi.Wait.{SpiWait, prepare_wait, wait_expired}
use device_abstraction_stack.Spi.Polled.{each_chunk}

abbrev pub rx_config : DasDmaConfig
rx_config = record {
  direction = das_dma_peripheral_to_memory;
  source_width = das_dma_width_byte;
  destination_width = das_dma_width_byte;
  source_increment = false;
  destination_increment = true;
}

abbrev pub tx_config : DasDmaConfig
tx_config = record {
  direction = das_dma_memory_to_peripheral;
  source_width = das_dma_width_byte;
  destination_width = das_dma_width_byte;
  source_increment = true;
  destination_increment = false;
}

-- Whether a state is `DAS_DMA_STATE_ERROR`, or `DAS_DMA_STATE_COMPLETE`.
abbrev pub is_error : DasDmaState → Bool
is_error DasDmaState.error = true
is_error s = false

abbrev pub is_complete : DasDmaState → Bool
is_complete DasDmaState.complete = true
is_complete s = false

module _ ⦃p : Platform⦄ where
  -- `if (das_dma_is_valid(dma)) { (void)das_dma_abort(dma); (void)das_dma_release(dma); }`
  unfoldable pub drop_stream : ℕ → M (Unit {0})
  drop_stream dma = do
    valid ← das_dma_is_valid dma
    if valid then (do ignore (das_dma_abort dma); ignore (das_dma_release dma)) else return tt

  -- `registers->CR1 &= ~SPI_CR1_SPE;` and so on, which closes the request gates
  unfoldable pub close_gates : M (Unit {0})
  close_gates = do
    modify_reg Reg.spi_cr1 (λ v. bit_clear v p.cmsis.spi.cr1_spe)
    modify_reg Reg.spi_cfg1
        (λ v. bit_clear v (bit_or p.cmsis.spi.cfg1_rxdmaen p.cmsis.spi.cfg1_txdmaen))
    write_reg Reg.spi_ifcr clear_flags

  unfoldable pub dma_pair_cleanup : ℕ → ℕ → M (Unit {0})
  dma_pair_cleanup rx_dma tx_dma = do close_gates; drop_stream rx_dma; drop_stream tx_dma

  unfoldable pub configure_pair : ℕ → ℕ → M (Unit {0})
  configure_pair rx_dma tx_dma = do
    das_dma_configure rx_dma (some rx_config)
    das_dma_configure tx_dma (some tx_config)
    stm32h755_dma_set_request rx_dma dma_request_spi1_rx
    stm32h755_dma_set_request tx_dma dma_request_spi1_tx

  -- The start of both streams, then of the controller.
  unfoldable pub start_pair : ℕ → ℕ → ℕ → ℕ → ℕ → M (Unit {0})
  start_pair rx_dma tx_dma tx rx count = do
    or_cleanup (das_dma_start rx_dma p.cmsis.spi.rxdr_address rx count)
        (dma_pair_cleanup rx_dma tx_dma)
    modify_reg Reg.spi_cfg1 (λ v. bit_or v p.cmsis.spi.cfg1_rxdmaen)
    or_cleanup (das_dma_start tx_dma tx p.cmsis.spi.txdr_address count)
        (dma_pair_cleanup rx_dma tx_dma)
    write_reg Reg.spi_cr2 (bit_and count p.cmsis.spi.cr2_tsize)
    modify_reg Reg.spi_cfg1 (λ v. bit_or v p.cmsis.spi.cfg1_txdmaen)
    barrier Barrier.dsb
    modify_reg Reg.spi_cr1 (λ v. bit_or v (bit_or p.cmsis.spi.cr1_ssi p.cmsis.spi.cr1_spe))
    modify_reg Reg.spi_cr1 (λ v. bit_or v p.cmsis.spi.cr1_cstart)

  unfoldable pub pair_states : ℕ → ℕ → M (DasDmaState × DasDmaState)
  pair_states rx_dma tx_dma = do
    rx_state ← das_dma_get_state rx_dma true
    tx_state ← das_dma_get_state tx_dma true
    return (rx_state, tx_state)

  -- The loop that waits for both streams and the end of the transfer; it leaves the cleanup after
  -- a success to its caller.
  unfoldable pub pair_loop : ℕ → ℕ → ℕ → SpiWait → M (Unit {0})
  pair_loop zero rx_dma tx_dma wait = spin
  pair_loop (suc fuel) rx_dma tx_dma wait = do
    states ← or_cleanup (pair_states rx_dma tx_dma) (dma_pair_cleanup rx_dma tx_dma)
    status ← read_reg Reg.spi_sr
    if is_error states.0 || is_error states.1 || has_bits status error_flags
        then (do dma_pair_cleanup rx_dma tx_dma; fail io)
        else if is_complete states.0 && is_complete states.1 && has_bits status p.cmsis.spi.sr_eot
        then return tt
        else (do
          expired ← wait_expired wait
          if expired
              then (do dma_pair_cleanup rx_dma tx_dma; fail timeout)
              else pair_loop fuel rx_dma tx_dma wait)

  unfoldable pub transfer_dma_chunk : ℕ → ℕ → ℕ → ℕ → ℕ → SpiWait → M (Unit {0})
  transfer_dma_chunk fuel tx rx offset count wait = do
    rx_dma ← das_dma_acquire true
    tx_dma ← or_cleanup (das_dma_acquire true) (ignore (das_dma_release rx_dma))
    or_cleanup (configure_pair rx_dma tx_dma) (dma_pair_cleanup rx_dma tx_dma)
    close_gates
    start_pair rx_dma tx_dma (tx + offset) (rx + offset) count
    pair_loop fuel rx_dma tx_dma wait
    dma_pair_cleanup rx_dma tx_dma

  unfoldable pub das_spi_transfer_dma_timeout : ℕ → ℕ → ℕ → ℕ → ℕ → ℕ → M (Unit {0})
  das_spi_transfer_dma_timeout fuel spi tx rx size timeout_ms = do
    fail_if (not (resolve_spi spi) || size != 0 && (tx == 0 || rx == 0)) invalid_argument
    if size == 0 then return tt else (do
      wait ← prepare_wait timeout_ms
      each_chunk size (λ offset count. transfer_dma_chunk fuel tx rx offset count wait) size 0)

  unfoldable pub das_spi_transfer_dma : ℕ → ℕ → ℕ → ℕ → ℕ → M (Unit {0})
  das_spi_transfer_dma fuel spi tx rx size =
      das_spi_transfer_dma_timeout fuel spi tx rx size das_spi_wait_forever
