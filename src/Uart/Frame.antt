-- ===== src/Uart/Frame.antt =====
-- The frame format and the baud rate divisor of src/device/stm32h755/uart.c.
use device_abstraction_stack.Base.{
  ℕ, ◌+◌, ◌-◌, ◌/◌, Bool, false, not, ◌&&◌, ◌||◌, Option, none, some, bit_or, has_bits, ltb, leb,
  ◌==◌, ◌!=◌, if◌then◌else◌, ◌<<<◌, u32, sub32,
}
use device_abstraction_stack.Api.Uart.{
  DasUartConfig, das_uart_parity_none, das_uart_parity_even, das_uart_parity_odd,
}
use device_abstraction_stack.Machine.Platform.{Platform}

unfoldable pub config_valid : Option DasUartConfig → Bool
config_valid none = false
config_valid (some config) =
    if config.baud_rate == 0
    then false
    else if config.data_bits != 7 && config.data_bits != 8
    then false
    else if config.parity != das_uart_parity_none
        && config.parity != das_uart_parity_even
        && config.parity != das_uart_parity_odd
    then false
    else config.stop_bits == 1 || config.stop_bits == 2

-- `(clock_hz + (baud_rate / 2u)) / baud_rate`, on `uint32_t`
unfoldable pub rounded_quotient : ℕ → ℕ → ℕ
rounded_quotient a b = u32 (a + b / 2) / b

unfoldable pub brr_supported : ℕ → Bool
brr_supported brr = not (ltb brr 0x10 || ltb 0xffff brr)

unfoldable pub frame_length_bits : DasUartConfig → ℕ
frame_length_bits config =
    config.data_bits + (if config.parity == das_uart_parity_none then 0 else 1)

module _ ⦃p : Platform⦄ where
  -- The word length bits; `none` is the default branch of the switch.
  unfoldable pub word_length : ℕ → Option ℕ
  word_length frame_bits =
      let base = bit_or p.cmsis.usart.cr1_te p.cmsis.usart.cr1_re in
      if frame_bits == 7
      then some (bit_or base p.cmsis.usart.cr1_m1)
      else if frame_bits == 8
      then some base
      else if frame_bits == 9
      then some (bit_or base p.cmsis.usart.cr1_m0)
      else none

  -- The parity bits that `das_uart_init` adds.
  unfoldable pub with_parity : DasUartConfig → ℕ → ℕ
  with_parity config cr1 =
      if config.parity != das_uart_parity_none
      then (if config.parity == das_uart_parity_odd
          then bit_or (bit_or cr1 p.cmsis.usart.cr1_pce) p.cmsis.usart.cr1_ps
          else bit_or cr1 p.cmsis.usart.cr1_pce)
      else cr1

  unfoldable pub config_cr2 : DasUartConfig → ℕ
  config_cr2 config = if config.stop_bits == 2 then bit_or 0 p.cmsis.usart.cr2_stop_1 else 0

  -- The data bits of a frame with the parity bit, from the word length bits of CR1.
  unfoldable pub frame_bits_of : ℕ → ℕ
  frame_bits_of cr1 =
      if has_bits cr1 p.cmsis.usart.cr1_m1
      then 7
      else if has_bits cr1 p.cmsis.usart.cr1_m0
      then 9
      else 8

  -- The mask that `application_data_mask` computes from CR1.
  unfoldable pub data_mask_of : ℕ → ℕ
  data_mask_of cr1 =
      let frame_bits = frame_bits_of cr1 in
      let data_bits = if has_bits cr1 p.cmsis.usart.cr1_pce then frame_bits - 1 else frame_bits in
      if leb 8 data_bits then 0xff else sub32 (1 <<< data_bits) 1
