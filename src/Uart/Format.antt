-- ===== src/Uart/Format.antt =====
-- The frame format that `das_uart_init` programs, read back, and the accuracy of the baud rate.
use device_abstraction_stack.Base.{
  ℕ, ◌+◌, ◌-◌, ◌/◌, ◌^◌, ◌≤◌, ◌≡◌, ◌⊎◌, inl, inr, refl, arith, true, some, bit_or, uint32_max, u32,
}
use device_abstraction_stack.Base.Rounding.{Nearest, rounded-Nearest}
use device_abstraction_stack.Api.Uart.{DasUartConfig}
use device_abstraction_stack.Machine.Platform.{Platform}
use device_abstraction_stack.Uart.Frame.{
  config_valid, rounded_quotient, frame_length_bits, word_length, with_parity, data_mask_of,
  frame_bits_of,
}

-- The documented positions of the bits of USART_CR1.
pub record Cr1Documented (p : Platform) : Type 0 where
  pub ue : p.cmsis.usart.cr1_ue ≡ 0x1
  pub re : p.cmsis.usart.cr1_re ≡ 0x4
  pub te : p.cmsis.usart.cr1_te ≡ 0x8
  pub ps : p.cmsis.usart.cr1_ps ≡ 0x200
  pub pce : p.cmsis.usart.cr1_pce ≡ 0x400
  pub m0 : p.cmsis.usart.cr1_m0 ≡ 0x1000
  pub m1 : p.cmsis.usart.cr1_m1 ≡ 0x1000_0000

-- For a baud rate up to the clock, where the sum for the rounding fits a `uint32_t`, the divisor is the
-- nearest whole number.
pub rounded_quotient-Nearest :
    (clock_hz baud_rate : ℕ)
    → 1 ≤ baud_rate
    → baud_rate ≤ clock_hz
    → clock_hz + baud_rate / 2 ≤ uint32_max
    → Nearest clock_hz baud_rate (rounded_quotient clock_hz baud_rate)
unfolding rounded_quotient
rounded_quotient-Nearest clock_hz baud_rate h k l =
    let exact : u32 (clock_hz + baud_rate / 2) ≡ clock_hz + baud_rate / 2 = omega arith in
    rw exact (rounded-Nearest clock_hz baud_rate h)

valid-cases :
    (config : DasUartConfig)
    → config_valid (some config) ≡ true
    → (config.data_bits ≡ 7 ⊎ config.data_bits ≡ 8)
      × (config.parity ≡ 0 ⊎ config.parity ≡ 1 ⊎ config.parity ≡ 2)
unfolding config_valid
valid-cases config h = (ground arith, ground arith)

module _ ⦃p : Platform⦄ where
  -- With the documented bits of CR1, for every valid configuration `das_uart_init` finds a word length, and the word that it then
  -- writes to CR1 makes `application_data_mask` mask exactly the configured data bits, with and
  -- without parity.
  pub data_mask_of-init :
      (config : DasUartConfig)
      → Cr1Documented p
      → config_valid (some config) ≡ true
      → (cr1 : ℕ) × (word_length (frame_length_bits config) ≡ some cr1)
        × (data_mask_of (bit_or (with_parity config cr1) p.cmsis.usart.cr1_ue)
            ≡ 2 ^ config.data_bits - 1)
  unfolding word_length frame_length_bits with_parity data_mask_of frame_bits_of
  data_mask_of-init config c h = by_cases (valid-cases config h)
    where
      Programmed : Type 0
      Programmed =
          (cr1 : ℕ) × (word_length (frame_length_bits config) ≡ some cr1)
          × (data_mask_of (bit_or (with_parity config cr1) p.cmsis.usart.cr1_ue)
              ≡ 2 ^ config.data_bits - 1)

      by_cases :
          (config.data_bits ≡ 7 ⊎ config.data_bits ≡ 8)
            × (config.parity ≡ 0 ⊎ config.parity ≡ 1 ⊎ config.parity ≡ 2)
          → Programmed
      by_cases (inl d, inl q) =
          rw (d, q, c.ue, c.re, c.te, c.pce, c.m0, c.m1) (0x1000_000c, refl, refl)
      by_cases (inl d, inr (inl q)) =
          rw (d, q, c.ue, c.re, c.te, c.pce, c.m0, c.m1) (0xc, refl, refl)
      by_cases (inl d, inr (inr q)) =
          rw (d, q, c.ue, c.re, c.te, c.ps, c.pce, c.m0, c.m1) (0xc, refl, refl)
      by_cases (inr d, inl q) = rw (d, q, c.ue, c.re, c.te, c.pce, c.m0, c.m1) (0xc, refl, refl)
      by_cases (inr d, inr (inl q)) =
          rw (d, q, c.ue, c.re, c.te, c.pce, c.m0, c.m1) (0x100c, refl, refl)
      by_cases (inr d, inr (inr q)) =
          rw (d, q, c.ue, c.re, c.te, c.ps, c.pce, c.m0, c.m1) (0x100c, refl, refl)
