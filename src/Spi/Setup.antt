-- ===== src/Spi/Setup.antt =====
-- The configuration of the controller and its clock in src/device/stm32h755/spi.c.
use device_abstraction_stack.Base.{
  ℕ, ◌/◌, Bool, false, not, ◌||◌, Option, none, some, bit_and, bit_or, bit_clear, has_bits, ltb,
  ◌==◌, ◌!=◌, if◌then◌else◌, ◌<<<◌, ◌>>>◌,
}
use device_abstraction_stack.Api.Spi.{
  DasSpiConfig, das_spi_invalid, das_spi_mode_1, das_spi_mode_2, das_spi_mode_3, das_spi_msb_first,
  das_spi_lsb_first,
}
use device_abstraction_stack.Machine.Reg.{Reg, Barrier}
use device_abstraction_stack.Machine.Platform.{Platform}
use device_abstraction_stack.Machine.Monad.{
  M, invalid_argument, not_ready, return, fail, fail_if, lift, ◌>>=◌, ◌>>◌, read_reg, write_reg,
  modify_reg, barrier,
}
use device_abstraction_stack.Clock.Tree.{hsi_frequency_hz}
use device_abstraction_stack.Spi.Prescaler.{select_prescaler, divider}

-- `STM32H755_SPI1`
abbrev pub spi1 : ℕ
spi1 = 0

-- Whether `resolve_spi` finds a controller.
unfoldable pub resolve_spi : ℕ → Bool
resolve_spi spi = spi == spi1

unfoldable pub stm32h755_spi_handle : ℕ → ℕ
stm32h755_spi_handle instance_ = if instance_ == spi1 then instance_ else das_spi_invalid

unfoldable pub das_spi_is_valid : ℕ → Bool
das_spi_is_valid spi = resolve_spi spi

unfoldable pub config_valid : Option DasSpiConfig → Bool
config_valid none = false
config_valid (some config) =
    if config.frequency_hz == 0
    then false
    else if ltb das_spi_mode_3 config.mode
    then false
    else config.bit_order == das_spi_msb_first || config.bit_order == das_spi_lsb_first

module _ ⦃p : Platform⦄ where
  abbrev pub error_flags : ℕ
  error_flags = bit_or p.cmsis.spi.sr_ovr p.cmsis.spi.sr_modf

  abbrev pub clear_flags : ℕ
  clear_flags =
      bit_or (bit_or (bit_or p.cmsis.spi.ifcr_eotc p.cmsis.spi.ifcr_txtfc) p.cmsis.spi.ifcr_ovrc)
        p.cmsis.spi.ifcr_modfc

  unfoldable pub spi123_perck_bits : ℕ
  spi123_perck_bits = 4 <<< p.cmsis.spi.rcc_spi123sel_pos

  -- The conditions of `kernel_frequency` are read one after the other, and only as far as needed.
  unfoldable pub kernel_frequency : M ℕ
  kernel_frequency = do
    cr ← read_reg Reg.rcc_cr
    fail_if (not (has_bits cr p.cmsis.rcc.cr_hsirdy)) not_ready
    d1ccipr ← read_reg Reg.rcc_d1ccipr
    fail_if (has_bits d1ccipr p.cmsis.spi.rcc_ckpersel) not_ready
    d2ccip1r ← read_reg Reg.rcc_d2ccip1r
    fail_if (bit_and d2ccip1r p.cmsis.spi.rcc_spi123sel != spi123_perck_bits) not_ready
    frequency_hz ← hsi_frequency_hz
    fail_if (frequency_hz == 0) not_ready
    return frequency_hz

  unfoldable pub select_kernel_clock : M ℕ
  select_kernel_clock = do
    cr ← read_reg Reg.rcc_cr
    fail_if (not (has_bits cr p.cmsis.rcc.cr_hsirdy)) not_ready
    modify_reg Reg.rcc_d1ccipr (λ v. bit_clear v p.cmsis.spi.rcc_ckpersel)
    modify_reg Reg.rcc_d2ccip1r
        (λ v. bit_or (bit_clear v p.cmsis.spi.rcc_spi123sel) spi123_perck_bits)
    barrier Barrier.dsb
    kernel_frequency

  unfoldable pub enable_peripheral_clock : M (Unit {0})
  enable_peripheral_clock = do
    modify_reg Reg.core_apb2enr (λ v. bit_or v p.cmsis.spi.rcc_spi1en)
    unused ← read_reg Reg.core_apb2enr
    barrier Barrier.dsb

  -- The word of CFG2 for a mode and a bit order.
  unfoldable pub config_cfg2 : DasSpiConfig → ℕ
  config_cfg2 config =
      let spi = p.cmsis.spi in
      let base = bit_or (bit_or spi.cfg2_master spi.cfg2_ssm) spi.cfg2_afcntr in
      let phased =
        if config.mode == das_spi_mode_1 || config.mode == das_spi_mode_3
        then bit_or base spi.cfg2_cpha
        else base in
      let polarised =
        if config.mode == das_spi_mode_2 || config.mode == das_spi_mode_3
        then bit_or phased spi.cfg2_cpol
        else phased in
      if config.bit_order == das_spi_lsb_first then bit_or polarised spi.cfg2_lsbfrst else polarised

  unfoldable pub init_checked : DasSpiConfig → M (Unit {0})
  init_checked config = do
    enable_peripheral_clock
    kernel_hz ← select_kernel_clock
    selected ← lift (select_prescaler kernel_hz config.frequency_hz)
    modify_reg Reg.spi_cr1 (λ v. bit_clear v p.cmsis.spi.cr1_spe)
    write_reg Reg.spi_ier 0
    write_reg Reg.spi_cr1 p.cmsis.spi.cr1_ssi
    write_reg Reg.spi_cr2 0
    write_reg Reg.spi_cfg1
        (bit_or (7 <<< p.cmsis.spi.cfg1_dsize_pos) (selected.0 <<< p.cmsis.spi.cfg1_mbr_pos))
    write_reg Reg.spi_cfg2 (config_cfg2 config)
    write_reg Reg.spi_ifcr clear_flags
    barrier Barrier.dsb

  unfoldable pub das_spi_init : ℕ → Option DasSpiConfig → M (Unit {0})
  das_spi_init spi config = do
    fail_if (not (resolve_spi spi) || not (config_valid config)) invalid_argument
    elim config [ none ↦ fail invalid_argument | some c ↦ init_checked c ]

  unfoldable pub das_spi_get_frequency : ℕ → Bool → M ℕ
  das_spi_get_frequency spi frequency_hz = do
    fail_if (not (resolve_spi spi) || not frequency_hz) invalid_argument
    kernel_hz ← kernel_frequency
    cfg1 ← read_reg Reg.spi_cfg1
    let mbr = bit_and cfg1 p.cmsis.spi.cfg1_mbr >>> p.cmsis.spi.cfg1_mbr_pos
    let effective_hz = kernel_hz / divider mbr
    fail_if (effective_hz == 0) not_ready
    return effective_hz
