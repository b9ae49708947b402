-- ===== src/Api/Uart.antt =====
-- include/das/uart.h
use device_abstraction_stack.Base.{ℕ, uint32_max}

abbrev pub das_uart_invalid : ℕ
das_uart_invalid = uint32_max

abbrev pub das_uart_wait_forever : ℕ
das_uart_wait_forever = uint32_max

abbrev pub das_uart_parity_none : ℕ
das_uart_parity_none = 0

abbrev pub das_uart_parity_even : ℕ
das_uart_parity_even = 1

abbrev pub das_uart_parity_odd : ℕ
das_uart_parity_odd = 2

-- `das_uart_config_t`
pub record DasUartConfig : Type 0 where
  pub baud_rate : ℕ
  pub data_bits : ℕ
  pub parity : ℕ
  pub stop_bits : ℕ
