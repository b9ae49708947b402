-- ===== src/Uart/Wait.antt =====
-- The waits of src/device/stm32h755/uart.c, with `uart_wait_t`.
use device_abstraction_stack.Base.{
  ℕ, zero, suc, Bool, true, false, not, ◌&&◌, bit_and, bit_or, has_bits, ltb, ◌==◌, if◌then◌else◌,
}
use device_abstraction_stack.Api.Time.{das_time_max_interval_ms}
use device_abstraction_stack.Api.Uart.{das_uart_wait_forever}
use device_abstraction_stack.Machine.Reg.{Reg}
use device_abstraction_stack.Machine.Platform.{Platform}
use device_abstraction_stack.Machine.Monad.{
  M, invalid_argument, not_ready, timeout, io, return, fail, spin, fail_if, ◌>>=◌, ◌>>◌, read_reg,
  write_reg,
}
use device_abstraction_stack.Time.{das_time_is_ready, das_time_now_ms, das_time_interval_elapsed}

pub record UartWait : Type 0 where
  pub finite : Bool
  pub start_ms : ℕ
  pub timeout_ms : ℕ

abbrev pub without_limit : UartWait
without_limit = record { finite = false; start_ms = 0; timeout_ms = 0 }

abbrev pub uart_wait_limit : ℕ
uart_wait_limit = 1000000

module _ ⦃p : Platform⦄ where
  abbrev pub error_flags : ℕ
  error_flags =
      bit_or (bit_or (bit_or p.cmsis.usart.isr_pe p.cmsis.usart.isr_fe) p.cmsis.usart.isr_ne)
        p.cmsis.usart.isr_ore

  abbrev pub clear_errors : ℕ
  clear_errors =
      bit_or (bit_or (bit_or p.cmsis.usart.icr_pecf p.cmsis.usart.icr_fecf) p.cmsis.usart.icr_necf)
        p.cmsis.usart.icr_orecf

  unfoldable pub prepare_wait : ℕ → M UartWait
  prepare_wait timeout_ms =
      if timeout_ms == das_uart_wait_forever then return without_limit else (do
        fail_if (ltb das_time_max_interval_ms timeout_ms) invalid_argument
        ready ← das_time_is_ready
        fail_if (not ready) not_ready
        start_ms ← das_time_now_ms
        return (record { finite = true; start_ms = start_ms; timeout_ms = timeout_ms }))

  unfoldable pub wait_expired : UartWait → M Bool
  wait_expired wait =
      if wait.finite then das_time_interval_elapsed wait.start_ms wait.timeout_ms else return false

  -- The loop has no bound in the source.
  unfoldable pub wait_for_flag : ℕ → ℕ → ℕ → Bool → UartWait → M (Unit {0})
  wait_for_flag zero uart flag check_rx_errors wait = spin
  wait_for_flag (suc fuel) uart flag check_rx_errors wait = do
    status ← read_reg (Reg.usart_isr uart)
    if check_rx_errors && has_bits status error_flags
        then (do write_reg (Reg.usart_icr uart) clear_errors; fail io)
        else if has_bits status flag
        then return tt
        else (do
          expired ← wait_expired wait
          if expired then fail timeout else wait_for_flag fuel uart flag check_rx_errors wait)

  unfoldable pub enable_ack_polls : ℕ → ℕ → M (Unit {0})
  enable_ack_polls zero uart = fail timeout
  enable_ack_polls (suc left) uart = do
    let required = bit_or p.cmsis.usart.isr_teack p.cmsis.usart.isr_reack
    isr ← read_reg (Reg.usart_isr uart)
    if bit_and isr required == required then return tt else enable_ack_polls left uart

  unfoldable pub wait_for_enable_ack : ℕ → M (Unit {0})
  wait_for_enable_ack uart = enable_ack_polls uart_wait_limit uart
