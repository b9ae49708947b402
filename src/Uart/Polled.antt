-- ===== src/Uart/Polled.antt =====
-- The reads and writes of src/device/stm32h755/uart.c. `fuel` bounds the rounds of each wait loop.
use device_abstraction_stack.Base.{
  ℕ, zero, suc, ◌+◌, true, false, not, ◌&&◌, ◌||◌, bit_and, has_bits, ◌==◌, ◌!=◌, if◌then◌else◌, u8,
}
use device_abstraction_stack.Api.Uart.{das_uart_wait_forever}
use device_abstraction_stack.Machine.Reg.{Reg}
use device_abstraction_stack.Machine.Platform.{Platform}
use device_abstraction_stack.Machine.Monad.{
  M, invalid_argument, not_ready, return, fail_if, ◌>>=◌, ◌>>◌, read_reg, write_reg, do_hw, ask_hw,
}
use device_abstraction_stack.Uart.Setup.{resolve_uart, application_data_mask}
use device_abstraction_stack.Uart.Wait.{UartWait, prepare_wait, wait_for_flag, without_limit}

module _ ⦃p : Platform⦄ where
  -- `if ((route.registers->CR1 & USART_CR1_UE) == 0u) return DAS_ERROR_NOT_READY;`
  unfoldable pub require_enabled : ℕ → M (Unit {0})
  require_enabled uart = do
    cr1 ← read_reg (Reg.usart_cr1 uart)
    fail_if (not (has_bits cr1 p.cmsis.usart.cr1_ue)) not_ready

  -- The loops at `index`, with `left` bytes to go.
  unfoldable pub write_bytes : ℕ → ℕ → ℕ → ℕ → UartWait → ℕ → ℕ → M (Unit {0})
  write_bytes zero fuel uart data_mask wait bytes index = return tt
  write_bytes (suc left) fuel uart data_mask wait bytes index = do
    wait_for_flag fuel uart p.cmsis.usart.isr_txe_txfnf false wait
    value ← ask_hw (p.load_byte (bytes + index))
    write_reg (Reg.usart_tdr uart) (bit_and (u8 value) data_mask)
    write_bytes left fuel uart data_mask wait bytes (index + 1)

  unfoldable pub read_bytes : ℕ → ℕ → ℕ → ℕ → UartWait → ℕ → ℕ → M (Unit {0})
  read_bytes zero fuel uart data_mask wait bytes index = return tt
  read_bytes (suc left) fuel uart data_mask wait bytes index = do
    wait_for_flag fuel uart p.cmsis.usart.isr_rxne_rxfne true wait
    value ← read_reg (Reg.usart_rdr uart)
    do_hw (p.store_byte (bytes + index) (u8 (bit_and value data_mask)))
    read_bytes left fuel uart data_mask wait bytes (index + 1)

  unfoldable pub das_uart_write_timeout : ℕ → ℕ → ℕ → ℕ → ℕ → M (Unit {0})
  das_uart_write_timeout fuel uart bytes size timeout_ms = do
    fail_if (size != 0 && bytes == 0 || not (resolve_uart uart)) invalid_argument
    if size == 0 then return tt else (do
      require_enabled uart
      wait ← prepare_wait timeout_ms
      data_mask ← application_data_mask uart
      write_bytes size fuel uart data_mask wait bytes 0
      wait_for_flag fuel uart p.cmsis.usart.isr_tc false wait)

  unfoldable pub das_uart_read_timeout : ℕ → ℕ → ℕ → ℕ → ℕ → M (Unit {0})
  das_uart_read_timeout fuel uart bytes size timeout_ms = do
    fail_if (size != 0 && bytes == 0 || not (resolve_uart uart)) invalid_argument
    if size == 0 then return tt else (do
      require_enabled uart
      wait ← prepare_wait timeout_ms
      data_mask ← application_data_mask uart
      read_bytes size fuel uart data_mask wait bytes 0)

  unfoldable pub das_uart_write : ℕ → ℕ → ℕ → ℕ → M (Unit {0})
  das_uart_write fuel uart bytes size =
      das_uart_write_timeout fuel uart bytes size das_uart_wait_forever

  unfoldable pub das_uart_read : ℕ → ℕ → ℕ → ℕ → M (Unit {0})
  das_uart_read fuel uart bytes size =
      das_uart_read_timeout fuel uart bytes size das_uart_wait_forever

  unfoldable pub das_uart_flush : ℕ → ℕ → M (Unit {0})
  das_uart_flush fuel uart = do
    fail_if (not (resolve_uart uart)) invalid_argument
    require_enabled uart
    wait_for_flag fuel uart p.cmsis.usart.isr_tc false without_limit
