-- ===== src/Clock/Apply.antt =====
-- The transition to a managed configuration, `stm32h755_clock_apply`.
use device_abstraction_stack.Base.{
  ℕ, ◌/◌, Bool, true, false, not, ◌||◌, Option, none, some, bit_or, bit_and, bit_clear, ltb, ◌==◌,
  ◌!=◌, if◌then◌else◌, ◌<<<◌, sub32,
}
use device_abstraction_stack.Machine.Reg.{Reg, Barrier}
use device_abstraction_stack.Machine.Platform.{Platform}
use device_abstraction_stack.Machine.Monad.{
  M, invalid_argument, unsupported, return, fail, fail_if, lift, ◌>>=◌, ◌>>◌, read_reg, write_reg,
  modify_reg, barrier,
}
use device_abstraction_stack.Machine.Poll.{wait_mask, wait_field}
use device_abstraction_stack.Clock.Dividers.{core_ahb_divider_bits, apb_divider_bits}
use device_abstraction_stack.Clock.Tree.{Frequencies, hsi_hz, stm32h755_clock_get_frequencies}
use device_abstraction_stack.Clock.Config.{
  ClockConfig, source_hsi, source_hse_bypass, validate_managed_config,
}

-- The bits of a divider, or 0 for a divider that has none.
abbrev pub bits_or_zero : Option ℕ → ℕ
bits_or_zero none = 0
bits_or_zero (some bits) = bits

-- Whether an observed frequency differs from the expected one.
unfoldable pub differs : Frequencies → Frequencies → Bool
differs observed expected =
    observed.system_hz != expected.system_hz
    || observed.cm7_hz != expected.cm7_hz
    || observed.cm4_hz != expected.cm4_hz
    || observed.ahb_hz != expected.ahb_hz
    || observed.apb1_hz != expected.apb1_hz
    || observed.apb2_hz != expected.apb2_hz
    || observed.apb3_hz != expected.apb3_hz
    || observed.apb4_hz != expected.apb4_hz

module _ ⦃p : Platform⦄ where
  unfoldable pub pll_reference_range_bits : ℕ → ℕ
  pll_reference_range_bits reference_hz =
      if ltb reference_hz 2_000_000
      then p.cmsis.rcc.pllcfgr_pll1rge_0
      else if ltb reference_hz 4_000_000
      then p.cmsis.rcc.pllcfgr_pll1rge_1
      else if ltb reference_hz 8_000_000
      then p.cmsis.rcc.pllcfgr_pll1rge_2
      else p.cmsis.rcc.pllcfgr_pll1rge_3

  -- `RCC->CR = (RCC->CR & ~RCC_CR_HSIDIV) | RCC_CR_HSION | RCC_CR_HSIDIV_1;` and the wait for it
  unfoldable pub start_hsi : ℕ → M (Unit {0})
  start_hsi wait_limit = do
    let rcc = p.cmsis.rcc
    modify_reg Reg.rcc_cr
        (λ v. bit_or (bit_or (bit_clear v rcc.cr_hsidiv) rcc.cr_hsion) rcc.cr_hsidiv_1)
    wait_mask Reg.rcc_cr rcc.cr_hsirdy true wait_limit

  unfoldable pub switch_to_hsi : ℕ → M (Unit {0})
  switch_to_hsi wait_limit = do
    let rcc = p.cmsis.rcc
    start_hsi wait_limit
    modify_reg Reg.rcc_cfgr (λ v. bit_or (bit_clear v rcc.cfgr_sw) rcc.cfgr_sw_hsi)
    wait_field Reg.rcc_cfgr rcc.cfgr_sws rcc.cfgr_sws_hsi wait_limit

  unfoldable pub configure_source : ClockConfig → M (Unit {0})
  configure_source config =
      let rcc = p.cmsis.rcc in
      if config.source == source_hsi then start_hsi config.wait_limit else (do
        modify_reg Reg.rcc_cr (λ v. bit_clear v rcc.cr_hseon)
        wait_mask Reg.rcc_cr rcc.cr_hserdy false config.wait_limit
        if config.source == source_hse_bypass
            then modify_reg Reg.rcc_cr (λ v. bit_or v rcc.cr_hsebyp)
            else modify_reg Reg.rcc_cr (λ v. bit_clear v rcc.cr_hsebyp)
        modify_reg Reg.rcc_cr (λ v. bit_or v rcc.cr_hseon)
        wait_mask Reg.rcc_cr rcc.cr_hserdy true config.wait_limit)

  -- The word of PLL1DIVR.
  unfoldable pub pll1divr_of : ClockConfig → ℕ
  pll1divr_of config =
      let rcc = p.cmsis.rcc in
      bit_or
        (bit_or
          (bit_or (sub32 config.pll_n 1 <<< rcc.pll1divr_n1_pos)
            (sub32 config.pll_p 1 <<< rcc.pll1divr_p1_pos))
          (sub32 config.pll_q 1 <<< rcc.pll1divr_q1_pos))
        (sub32 config.pll_r 1 <<< rcc.pll1divr_r1_pos)

  -- The bits of PLLCFGR that are cleared, and those that are then set.
  unfoldable pub pllcfgr_cleared : ℕ
  pllcfgr_cleared =
      let rcc = p.cmsis.rcc in
      bit_or
        (bit_or
          (bit_or
            (bit_or (bit_or rcc.pllcfgr_pll1fracen rcc.pllcfgr_pll1vcosel) rcc.pllcfgr_pll1rge)
            rcc.pllcfgr_divp1en)
          rcc.pllcfgr_divq1en)
        rcc.pllcfgr_divr1en

  unfoldable pub configure_pll1 : ClockConfig → M (Unit {0})
  configure_pll1 config = do
    let rcc = p.cmsis.rcc
    modify_reg Reg.rcc_cr (λ v. bit_clear v rcc.cr_pll1on)
    wait_mask Reg.rcc_cr rcc.cr_pll1rdy false config.wait_limit
    if config.use_pll1
        then (do
          let source_bits =
              if config.source == source_hsi
              then rcc.pllckselr_pllsrc_hsi
              else rcc.pllckselr_pllsrc_hse
          let source_hz = if config.source == source_hsi then hsi_hz else config.source_hz
          let reference_hz = source_hz / config.pll_m
          modify_reg Reg.rcc_pllckselr (λ v.
              bit_or
                (bit_or (bit_clear v (bit_or rcc.pllckselr_pllsrc rcc.pllckselr_divm1)) source_bits)
                (config.pll_m <<< rcc.pllckselr_divm1_pos))
          write_reg Reg.rcc_pll1divr (pll1divr_of config)
          write_reg Reg.rcc_pll1fracr 0
          modify_reg Reg.rcc_pllcfgr (λ v.
              bit_or
                (bit_or
                  (bit_or
                    (bit_or (bit_clear v pllcfgr_cleared) (pll_reference_range_bits reference_hz))
                    rcc.pllcfgr_divp1en)
                  rcc.pllcfgr_divq1en)
                rcc.pllcfgr_divr1en)
          modify_reg Reg.rcc_cr (λ v. bit_or v rcc.cr_pll1on)
          wait_mask Reg.rcc_cr rcc.cr_pll1rdy true config.wait_limit)
        else return tt

  unfoldable pub configure_bus_dividers : ClockConfig → M (Unit {0})
  configure_bus_dividers config = do
    let rcc = p.cmsis.rcc
    modify_reg Reg.rcc_d1cfgr (λ v.
        bit_or
          (bit_or
            (bit_or
              (bit_clear v (bit_or (bit_or rcc.d1cfgr_d1cpre rcc.d1cfgr_hpre) rcc.d1cfgr_d1ppre))
              (bits_or_zero (core_ahb_divider_bits config.d1_core_divider)
                <<< rcc.d1cfgr_d1cpre_pos))
            (bits_or_zero (core_ahb_divider_bits config.ahb_divider) <<< rcc.d1cfgr_hpre_pos))
          (bits_or_zero (apb_divider_bits config.apb3_divider) <<< rcc.d1cfgr_d1ppre_pos))
    modify_reg Reg.rcc_d2cfgr (λ v.
        bit_or
          (bit_or (bit_clear v (bit_or rcc.d2cfgr_d2ppre1 rcc.d2cfgr_d2ppre2))
            (bits_or_zero (apb_divider_bits config.apb1_divider) <<< rcc.d2cfgr_d2ppre1_pos))
          (bits_or_zero (apb_divider_bits config.apb2_divider) <<< rcc.d2cfgr_d2ppre2_pos))
    modify_reg Reg.rcc_d3cfgr (λ v.
        bit_or (bit_clear v rcc.d3cfgr_d3ppre)
          (bits_or_zero (apb_divider_bits config.apb4_divider) <<< rcc.d3cfgr_d3ppre_pos))

  unfoldable pub switch_to_target : ClockConfig → M (Unit {0})
  switch_to_target config = do
    let rcc = p.cmsis.rcc
    let sw_bits =
        if config.use_pll1
        then rcc.cfgr_sw_pll1
        else if config.source == source_hsi
        then rcc.cfgr_sw_hsi
        else rcc.cfgr_sw_hse
    let sws_bits =
        if config.use_pll1
        then rcc.cfgr_sws_pll1
        else if config.source == source_hsi
        then rcc.cfgr_sws_hsi
        else rcc.cfgr_sws_hse
    modify_reg Reg.rcc_cfgr (λ v. bit_or (bit_clear v rcc.cfgr_sw) sw_bits)
    wait_field Reg.rcc_cfgr rcc.cfgr_sws sws_bits config.wait_limit

  -- `STM32H755_MANAGED_FLASH_LATENCY | STM32H755_MANAGED_FLASH_PROGRAM_DELAY`
  abbrev managed_flash : ℕ
  managed_flash = bit_or p.cmsis.power.acr_latency_4ws p.cmsis.power.acr_wrhighfreq_1

  -- Voltage scaling `STM32H755_MANAGED_VOS`, then the FLASH wait states, which are read back.
  unfoldable pub configure_envelope : ℕ → M (Unit {0})
  configure_envelope wait_limit = do
    let power = p.cmsis.power
    modify_reg Reg.pwr_d3cr
        (λ v. bit_or (bit_clear v power.d3cr_vos) (bit_or power.d3cr_vos_0 power.d3cr_vos_1))
    wait_mask Reg.pwr_d3cr power.d3cr_vosrdy true wait_limit
    modify_reg Reg.flash_acr (λ v.
        bit_or
          (bit_or (bit_clear v (bit_or power.acr_latency power.acr_wrhighfreq))
            power.acr_latency_4ws)
          power.acr_wrhighfreq_1)
    acr ← read_reg Reg.flash_acr
    fail_if (bit_and acr (bit_or power.acr_latency power.acr_wrhighfreq) != managed_flash)
        unsupported

  unfoldable pub apply_checked : ClockConfig → Frequencies → M (Unit {0})
  apply_checked config expected = do
    switch_to_hsi config.wait_limit
    configure_envelope config.wait_limit
    configure_bus_dividers config
    configure_source config
    configure_pll1 config
    switch_to_target config
    barrier Barrier.dsb
    barrier Barrier.isb
    observed ← stm32h755_clock_get_frequencies config.source_hz
    fail_if (differs observed expected) unsupported

  -- The image of the core CM4 does not own the clock.
  unfoldable pub stm32h755_clock_apply : Option ClockConfig → M (Unit {0})
  stm32h755_clock_apply config = do
    fail_if (not p.cmsis.core.core_cm7) unsupported
    expected ← lift (validate_managed_config config)
    elim config [ none ↦ fail invalid_argument | some c ↦ apply_checked c expected ]
