-- ===== src/Uart/Setup.antt =====
-- The routes, the clock and the initialisation of src/device/stm32h755/uart.c.
use device_abstraction_stack.Base.{
  ℕ, Bool, not, ◌||◌, Option, none, some, bit_or, bit_clear, has_bits, ◌==◌, if◌then◌else◌,
}
use device_abstraction_stack.Api.Uart.{DasUartConfig, das_uart_invalid}
use device_abstraction_stack.Machine.Reg.{Reg, Barrier}
use device_abstraction_stack.Machine.Platform.{Platform}
use device_abstraction_stack.Machine.Monad.{
  M, invalid_argument, unsupported, not_ready, return, fail, fail_if, or_cleanup, ◌>>=◌, ◌>>◌,
  read_reg, write_reg, modify_reg, barrier,
}
use device_abstraction_stack.Clock.Tree.{stm32h755_clock_get_frequencies}
use device_abstraction_stack.Uart.Frame.{
  config_valid, rounded_quotient, brr_supported, frame_length_bits, word_length, with_parity,
  config_cr2, data_mask_of,
}
use device_abstraction_stack.Uart.Wait.{wait_for_enable_ack, clear_errors}

-- `stm32h755_uart_instance_t`
abbrev pub usart1 : ℕ
usart1 = 1

abbrev pub usart3 : ℕ
usart3 = 3

-- Whether `resolve_uart` finds a route; its `apb2` is `uart == usart1`.
unfoldable pub resolve_uart : ℕ → Bool
resolve_uart uart = uart == usart1 || uart == usart3

unfoldable pub stm32h755_uart_handle : ℕ → ℕ
stm32h755_uart_handle instance_ =
    if instance_ == usart1 || instance_ == usart3 then instance_ else das_uart_invalid

unfoldable pub das_uart_is_valid : ℕ → Bool
das_uart_is_valid uart = resolve_uart uart

module _ ⦃p : Platform⦄ where
  unfoldable pub select_pclk_source : ℕ → M (Unit {0})
  select_pclk_source uart = do
    if uart == usart1
        then modify_reg Reg.rcc_d2ccip2r (λ v. bit_clear v p.cmsis.usart.rcc_usart16sel)
        else modify_reg Reg.rcc_d2ccip2r (λ v. bit_clear v p.cmsis.usart.rcc_usart28sel)
    barrier Barrier.dsb

  unfoldable pub enable_peripheral_clock : ℕ → M (Unit {0})
  enable_peripheral_clock uart = do
    if uart == usart1
        then (do
          modify_reg Reg.core_apb2enr (λ v. bit_or v p.cmsis.usart.rcc_usart1en)
          unused ← read_reg Reg.core_apb2enr
          return tt)
        else (do
          modify_reg Reg.core_apb1lenr (λ v. bit_or v p.cmsis.usart.rcc_usart3en)
          unused ← read_reg Reg.core_apb1lenr
          return tt)
    barrier Barrier.dsb

  unfoldable pub kernel_frequency : ℕ → M ℕ
  kernel_frequency uart = do
    fail_if (not (resolve_uart uart)) invalid_argument
    clocks ← stm32h755_clock_get_frequencies 0
    let frequency_hz = if uart == usart1 then clocks.apb2_hz else clocks.apb1_hz
    fail_if (frequency_hz == 0) not_ready
    return frequency_hz

  -- The registers are reset before the word length is chosen.
  unfoldable pub reset_registers : ℕ → M (Unit {0})
  reset_registers uart = do
    modify_reg (Reg.usart_cr1 uart) (λ v. bit_clear v p.cmsis.usart.cr1_ue)
    write_reg (Reg.usart_cr1 uart) 0
    write_reg (Reg.usart_cr2 uart) 0
    write_reg (Reg.usart_cr3 uart) 0
    write_reg (Reg.usart_presc uart) 0

  unfoldable pub program_uart : ℕ → DasUartConfig → ℕ → ℕ → M (Unit {0})
  program_uart uart config brr cr1 = do
    write_reg (Reg.usart_brr uart) brr
    write_reg (Reg.usart_cr2 uart) (config_cr2 config)
    write_reg (Reg.usart_cr3 uart) 0
    write_reg (Reg.usart_icr uart) clear_errors
    write_reg (Reg.usart_cr1 uart) (bit_or (with_parity config cr1) p.cmsis.usart.cr1_ue)
    barrier Barrier.dsb
    or_cleanup (wait_for_enable_ack uart)
        (modify_reg (Reg.usart_cr1 uart) (λ v. bit_clear v p.cmsis.usart.cr1_ue))

  unfoldable pub init_checked : ℕ → DasUartConfig → M (Unit {0})
  init_checked uart config = do
    select_pclk_source uart
    enable_peripheral_clock uart
    clock_hz ← kernel_frequency uart
    let brr = rounded_quotient clock_hz config.baud_rate
    fail_if (not (brr_supported brr)) unsupported
    reset_registers uart
    elim (word_length (frame_length_bits config)) [
      | none ↦ fail unsupported
      | some cr1 ↦ program_uart uart config brr cr1
    ]

  unfoldable pub das_uart_init : ℕ → Option DasUartConfig → M (Unit {0})
  das_uart_init uart config = do
    fail_if (not (resolve_uart uart) || not (config_valid config)) invalid_argument
    elim config [ none ↦ fail invalid_argument | some c ↦ init_checked uart c ]

  unfoldable pub das_uart_get_baud_rate : ℕ → Bool → M ℕ
  das_uart_get_baud_rate uart baud_rate = do
    fail_if (not baud_rate || not (resolve_uart uart)) invalid_argument
    cr1 ← read_reg (Reg.usart_cr1 uart)
    fail_if (not (has_bits cr1 p.cmsis.usart.cr1_ue)) not_ready
    brr ← read_reg (Reg.usart_brr uart)
    fail_if (brr == 0) not_ready
    clock_hz ← kernel_frequency uart
    divisor ← read_reg (Reg.usart_brr uart)
    return (rounded_quotient clock_hz divisor)

  unfoldable pub application_data_mask : ℕ → M ℕ
  application_data_mask uart = do cr1 ← read_reg (Reg.usart_cr1 uart); return (data_mask_of cr1)
