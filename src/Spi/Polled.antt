-- ===== src/Spi/Polled.antt =====
-- The polled transfer of src/device/stm32h755/spi.c. `fuel` bounds the rounds of each wait loop.
use device_abstraction_stack.Base.{
  ℕ, zero, suc, ◌+◌, ◌-◌, not, ◌&&◌, ◌||◌, bit_and, bit_or, bit_clear, has_bits, ltb, ◌==◌, ◌!=◌,
  if◌then◌else◌, u8, u32,
}
use device_abstraction_stack.Api.Spi.{das_spi_wait_forever}
use device_abstraction_stack.Machine.Reg.{Reg}
use device_abstraction_stack.Machine.Platform.{Platform}
use device_abstraction_stack.Machine.Monad.{
  M, invalid_argument, timeout, io, return, fail, spin, fail_if, ◌>>=◌, ◌>>◌, read_reg, write_reg,
  modify_reg, do_hw, ask_hw,
}
use device_abstraction_stack.Spi.Setup.{resolve_spi, error_flags, clear_flags}
use device_abstraction_stack.Spi.Wait.{SpiWait, prepare_wait, wait_expired}

abbrev pub spi_max_transfer : ℕ
spi_max_transfer = 0xffff

-- The size of the next chunk.
unfoldable pub chunk_count : ℕ → ℕ
chunk_count remaining = if ltb spi_max_transfer remaining then spi_max_transfer else u32 remaining

module _ ⦃p : Platform⦄ where
  unfoldable pub abort_transfer : M (Unit {0})
  abort_transfer = do
    modify_reg Reg.spi_cr1 (λ v. bit_clear v p.cmsis.spi.cr1_spe)
    write_reg Reg.spi_ifcr clear_flags

  -- The transmission of one byte, if there is one to send and room for it; the new index.
  unfoldable pub send_byte : ℕ → ℕ → ℕ → ℕ → ℕ → M ℕ
  send_byte tx offset count status tx_index =
      if ltb tx_index count && has_bits status p.cmsis.spi.sr_txp
      then (do
        value ← if tx != 0 then ask_hw (p.load_byte (tx + (offset + tx_index))) else return 0xff
        write_reg Reg.spi_txdr (u8 value)
        return (tx_index + 1))
      else return tx_index

  unfoldable pub take_byte : ℕ → ℕ → ℕ → M ℕ
  take_byte rx offset rx_index = do
    value ← read_reg Reg.spi_rxdr
    if rx != 0 then do_hw (p.store_byte (rx + (offset + rx_index)) (u8 value)) else return tt
    return (rx_index + 1)

  -- The reception of one byte; the register SR is read only if one is still expected.
  unfoldable pub receive_byte : ℕ → ℕ → ℕ → ℕ → M ℕ
  receive_byte rx offset count rx_index =
      if ltb rx_index count
      then (do
        status ← read_reg Reg.spi_sr
        if has_bits status p.cmsis.spi.sr_rxp
            then take_byte rx offset rx_index
            else return rx_index)
      else return rx_index

  -- `if (wait_expired(wait)) { abort_transfer(registers); return DAS_ERROR_TIMEOUT; }`
  unfoldable pub check_wait : SpiWait → M (Unit {0})
  check_wait wait = do
    expired ← wait_expired wait
    if expired then (do abort_transfer; fail timeout) else return tt

  -- `if ((status & ERROR_FLAGS) != 0u) { abort_transfer(registers); return DAS_ERROR_IO; }`
  unfoldable pub check_status : ℕ → M (Unit {0})
  check_status status =
      if has_bits status error_flags then (do abort_transfer; fail io) else return tt

  unfoldable pub exchange_loop : ℕ → ℕ → ℕ → ℕ → ℕ → SpiWait → ℕ → ℕ → M (Unit {0})
  exchange_loop zero tx rx offset count wait tx_index rx_index =
      if ltb tx_index count || ltb rx_index count then spin else return tt
  exchange_loop (suc fuel) tx rx offset count wait tx_index rx_index =
      if ltb tx_index count || ltb rx_index count
      then (do
        status ← read_reg Reg.spi_sr
        check_status status
        tx_index' ← send_byte tx offset count status tx_index
        rx_index' ← receive_byte rx offset count rx_index
        check_wait wait
        exchange_loop fuel tx rx offset count wait tx_index' rx_index')
      else return tt

  unfoldable pub end_loop : ℕ → SpiWait → M (Unit {0})
  end_loop zero wait = spin
  end_loop (suc fuel) wait = do
    status ← read_reg Reg.spi_sr
    if has_bits status p.cmsis.spi.sr_eot then return tt else (do
      again ← read_reg Reg.spi_sr
      check_status again
      check_wait wait
      end_loop fuel wait)

  unfoldable pub transfer_chunk : ℕ → ℕ → ℕ → ℕ → ℕ → SpiWait → M (Unit {0})
  transfer_chunk fuel tx rx offset count wait = do
    modify_reg Reg.spi_cr1 (λ v. bit_clear v p.cmsis.spi.cr1_spe)
    write_reg Reg.spi_ifcr clear_flags
    write_reg Reg.spi_cr2 (bit_and count p.cmsis.spi.cr2_tsize)
    modify_reg Reg.spi_cr1 (λ v. bit_or v (bit_or p.cmsis.spi.cr1_ssi p.cmsis.spi.cr1_spe))
    modify_reg Reg.spi_cr1 (λ v. bit_or v p.cmsis.spi.cr1_cstart)
    exchange_loop fuel tx rx offset count wait 0 0
    end_loop fuel wait
    modify_reg Reg.spi_cr1 (λ v. bit_clear v p.cmsis.spi.cr1_spe)
    write_reg Reg.spi_ifcr clear_flags

  -- `while (offset < size)`, over a routine for one chunk. Each chunk has a byte at least, so that
  -- `size` rounds are enough.
  unfoldable pub each_chunk : ℕ → (ℕ → ℕ → M (Unit {0})) → ℕ → ℕ → M (Unit {0})
  each_chunk zero chunk size offset = if ltb offset size then spin else return tt
  each_chunk (suc left) chunk size offset =
      if ltb offset size
      then (do
        let count = chunk_count (size - offset)
        chunk offset count
        each_chunk left chunk size (offset + count))
      else return tt

  unfoldable pub das_spi_transfer_timeout : ℕ → ℕ → ℕ → ℕ → ℕ → ℕ → M (Unit {0})
  das_spi_transfer_timeout fuel spi tx rx size timeout_ms = do
    fail_if (not (resolve_spi spi) || size != 0 && tx == 0 && rx == 0) invalid_argument
    if size == 0 then return tt else (do
      wait ← prepare_wait timeout_ms
      each_chunk size (λ offset count. transfer_chunk fuel tx rx offset count wait) size 0)

  unfoldable pub das_spi_transfer : ℕ → ℕ → ℕ → ℕ → ℕ → M (Unit {0})
  das_spi_transfer fuel spi tx rx size =
      das_spi_transfer_timeout fuel spi tx rx size das_spi_wait_forever
