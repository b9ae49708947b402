-- ===== src/I2c/Setup.antt =====
-- The handle, the kernel clock and the initialisation of src/device/stm32h755/i2c.c.
use device_abstraction_stack.Base.{
  ℕ, ◌/◌, Bool, not, ◌||◌, Option, none, some, bit_and, bit_or, bit_clear, has_bits, leb, ◌==◌,
  ◌!=◌, if◌then◌else◌,
}
use device_abstraction_stack.Api.I2c.{DasI2cConfig, das_i2c_invalid}
use device_abstraction_stack.Machine.Reg.{Reg, Barrier}
use device_abstraction_stack.Machine.Platform.{Platform}
use device_abstraction_stack.Machine.Monad.{
  M, invalid_argument, unsupported, not_ready, return, fail, fail_if, lift, ◌>>=◌, ◌>>◌, read_reg,
  write_reg, modify_reg, barrier,
}
use device_abstraction_stack.I2c.Timing.{calculate_timing, divider_of}
use device_abstraction_stack.I2c.Wait.{clear_status}

-- `STM32H755_I2C1`
abbrev pub i2c1 : ℕ
i2c1 = 0

-- Whether `resolve_i2c` finds a controller.
unfoldable pub resolve_i2c : ℕ → Bool
resolve_i2c i2c = i2c == i2c1

unfoldable pub stm32h755_i2c_handle : ℕ → ℕ
stm32h755_i2c_handle instance_ = if instance_ == i2c1 then instance_ else das_i2c_invalid

unfoldable pub das_i2c_is_valid : ℕ → Bool
das_i2c_is_valid i2c = resolve_i2c i2c

unfoldable pub config_valid : DasI2cConfig → Bool
config_valid config = config.frequency_hz == 100_000 || config.frequency_hz == 400_000

unfoldable pub address_valid : ℕ → Bool
address_valid address = leb address 0x7f

module _ ⦃p : Platform⦄ where
  unfoldable pub hsi_frequency_hz : M ℕ
  hsi_frequency_hz = do
    cr ← read_reg Reg.rcc_cr
    let field = bit_and cr p.cmsis.rcc.cr_hsidiv
    return (
        if field == p.cmsis.rcc.cr_hsidiv_2
        then 32_000_000
        else if field == p.cmsis.rcc.cr_hsidiv_4
        then 16_000_000
        else if field == p.cmsis.rcc.cr_hsidiv_8
        then 8_000_000
        else 64_000_000)

  unfoldable pub select_kernel_clock : M ℕ
  select_kernel_clock = do
    cr ← read_reg Reg.rcc_cr
    fail_if (not (has_bits cr p.cmsis.rcc.cr_hsirdy)) not_ready
    modify_reg Reg.rcc_d2ccip2r
        (λ v. bit_or (bit_clear v p.cmsis.i2c.rcc_i2c123sel) p.cmsis.i2c.rcc_i2c123sel_1)
    barrier Barrier.dsb
    frequency_hz ← hsi_frequency_hz
    fail_if (frequency_hz == 0) not_ready
    return frequency_hz

  unfoldable pub kernel_frequency : M ℕ
  kernel_frequency = do
    d2ccip2r ← read_reg Reg.rcc_d2ccip2r
    fail_if (bit_and d2ccip2r p.cmsis.i2c.rcc_i2c123sel != p.cmsis.i2c.rcc_i2c123sel_1) not_ready
    cr ← read_reg Reg.rcc_cr
    fail_if (not (has_bits cr p.cmsis.rcc.cr_hsirdy)) not_ready
    frequency_hz ← hsi_frequency_hz
    fail_if (frequency_hz == 0) not_ready
    return frequency_hz

  unfoldable pub enable_peripheral_clock : M (Unit {0})
  enable_peripheral_clock = do
    modify_reg Reg.core_apb1lenr (λ v. bit_or v p.cmsis.i2c.rcc_i2c1en)
    unused ← read_reg Reg.core_apb1lenr
    barrier Barrier.dsb

  -- The registers, from the disabling of the controller on.
  unfoldable pub program_i2c : ℕ → M (Unit {0})
  program_i2c timing = do
    modify_reg Reg.i2c_cr1 (λ v. bit_clear v p.cmsis.i2c.cr1_pe)
    write_reg Reg.i2c_cr1 0
    write_reg Reg.i2c_cr2 0
    write_reg Reg.i2c_oar1 0
    write_reg Reg.i2c_oar2 0
    write_reg Reg.i2c_timingr timing
    write_reg Reg.i2c_timeoutr 0
    clear_status
    write_reg Reg.i2c_cr1 p.cmsis.i2c.cr1_pe
    barrier Barrier.dsb

  unfoldable pub init_checked : DasI2cConfig → M (Unit {0})
  init_checked config = do
    fail_if (config.frequency_hz == 0) invalid_argument
    fail_if (not (config_valid config)) unsupported
    enable_peripheral_clock
    kernel_hz ← select_kernel_clock
    timing ← lift (calculate_timing kernel_hz config.frequency_hz)
    program_i2c timing

  unfoldable pub das_i2c_init : ℕ → Option DasI2cConfig → M (Unit {0})
  das_i2c_init i2c config = do
    fail_if (not (resolve_i2c i2c)) invalid_argument
    elim config [ none ↦ fail invalid_argument | some c ↦ init_checked c ]

  -- `if ((registers->CR1 & I2C_CR1_PE) == 0u) return DAS_ERROR_NOT_READY;`
  unfoldable pub require_enabled : M (Unit {0})
  require_enabled = do
    cr1 ← read_reg Reg.i2c_cr1
    fail_if (not (has_bits cr1 p.cmsis.i2c.cr1_pe)) not_ready

  unfoldable pub das_i2c_get_frequency : ℕ → Bool → M ℕ
  das_i2c_get_frequency i2c frequency_hz = do
    fail_if (not (resolve_i2c i2c) || not frequency_hz) invalid_argument
    require_enabled
    kernel_hz ← kernel_frequency
    timing ← read_reg Reg.i2c_timingr
    fail_if (divider_of timing == 0) not_ready
    fail_if (kernel_hz / divider_of timing == 0) not_ready
    return (kernel_hz / divider_of timing)
