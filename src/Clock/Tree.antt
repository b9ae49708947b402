-- ===== src/Clock/Tree.antt =====
-- The effective clocks, derived from the live RCC registers. The output pointers of the static
-- functions are addresses of locals and never null, so their null checks are left out.
use device_abstraction_stack.Base.{
  ℕ, ◌+◌, ◌*◌, ◌/◌, bit_and, ◌>>>◌, ◌==◌, if◌then◌else◌, has_bits, u32, u64, ◌||◌,
}
use device_abstraction_stack.Machine.Reg.{Reg}
use device_abstraction_stack.Machine.Platform.{Platform}
use device_abstraction_stack.Machine.Monad.{
  M, unsupported, return, fail, fail_if, ◌>>=◌, ◌>>◌, read_reg,
}
use device_abstraction_stack.Clock.Dividers.{core_ahb_divider_from_bits, apb_divider_from_bits}

abbrev pub hsi_hz : ℕ
hsi_hz = 64_000_000

abbrev pub csi_hz : ℕ
csi_hz = 4_000_000

-- `stm32h755_clock_frequencies_t`
pub record Frequencies : Type 0 where
  pub system_hz : ℕ
  pub cm7_hz : ℕ
  pub cm4_hz : ℕ
  pub ahb_hz : ℕ
  pub apb1_hz : ℕ
  pub apb2_hz : ℕ
  pub apb3_hz : ℕ
  pub apb4_hz : ℕ

module _ ⦃p : Platform⦄ where
  -- clock.c, and again, with the quotients written out, in spi.c and i2c.c
  unfoldable pub hsi_frequency_hz : M ℕ
  hsi_frequency_hz = do
    cr ← read_reg Reg.rcc_cr
    let field = bit_and cr p.cmsis.rcc.cr_hsidiv
    return (
        if field == p.cmsis.rcc.cr_hsidiv_2
        then hsi_hz / 2
        else if field == p.cmsis.rcc.cr_hsidiv_4
        then hsi_hz / 4
        else if field == p.cmsis.rcc.cr_hsidiv_8
        then hsi_hz / 8
        else hsi_hz)

  unfoldable pub hse_frequency : ℕ → M ℕ
  hse_frequency hse_frequency_hz = do
    fail_if (hse_frequency_hz == 0) unsupported
    return hse_frequency_hz

  unfoldable pub pll1_source_frequency : ℕ → M ℕ
  pll1_source_frequency hse_frequency_hz = do
    pllckselr ← read_reg Reg.rcc_pllckselr
    let field = bit_and pllckselr p.cmsis.rcc.pllckselr_pllsrc
    if field == p.cmsis.rcc.pllckselr_pllsrc_hsi
        then hsi_frequency_hz
        else if field == p.cmsis.rcc.pllckselr_pllsrc_csi
        then return csi_hz
        else if field == p.cmsis.rcc.pllckselr_pllsrc_hse
        then hse_frequency hse_frequency_hz
        else fail unsupported

  -- The products are of `uint64_t`, and the result is cut to `uint32_t`.
  unfoldable pub pll1_frequency : ℕ → ℕ → ℕ → ℕ → ℕ
  pll1_frequency source_hz multiplier_8192 m q =
      u32 (u64 (source_hz * multiplier_8192) / u64 (u64 (m * 8192) * q))

  unfoldable pub pll1_output : ℕ → M ℕ
  pll1_output hse_frequency_hz = do
    source_hz ← pll1_source_frequency hse_frequency_hz
    pllckselr ← read_reg Reg.rcc_pllckselr
    let m = bit_and pllckselr p.cmsis.rcc.pllckselr_divm1 >>> p.cmsis.rcc.pllckselr_divm1_pos
    divr_n ← read_reg Reg.rcc_pll1divr
    let n = u32 ((bit_and divr_n p.cmsis.rcc.pll1divr_n1 >>> p.cmsis.rcc.pll1divr_n1_pos) + 1)
    divr_p ← read_reg Reg.rcc_pll1divr
    let q = u32 ((bit_and divr_p p.cmsis.rcc.pll1divr_p1 >>> p.cmsis.rcc.pll1divr_p1_pos) + 1)
    fail_if (m == 0 || q == 0) unsupported
    pllcfgr ← read_reg Reg.rcc_pllcfgr
    frac ←
        if has_bits pllcfgr p.cmsis.rcc.pllcfgr_pll1fracen
        then (do
          fracr ← read_reg Reg.rcc_pll1fracr
          return (bit_and fracr p.cmsis.rcc.pll1fracr_fracn1 >>> p.cmsis.rcc.pll1fracr_fracn1_pos))
        else return 0
    return (pll1_frequency source_hz (n * 8192 + frac) m q)

  unfoldable pub system_frequency_hz : ℕ → M ℕ
  system_frequency_hz hse_frequency_hz = do
    cfgr ← read_reg Reg.rcc_cfgr
    let field = bit_and cfgr p.cmsis.rcc.cfgr_sws
    if field == p.cmsis.rcc.cfgr_sws_hsi
        then hsi_frequency_hz
        else if field == p.cmsis.rcc.cfgr_sws_csi
        then return csi_hz
        else if field == p.cmsis.rcc.cfgr_sws_hse
        then hse_frequency hse_frequency_hz
        else if field == p.cmsis.rcc.cfgr_sws_pll1
        then pll1_output hse_frequency_hz
        else fail unsupported

  -- `(reg & mask) >> pos`
  abbrev pub read_field : Reg → ℕ → ℕ → M ℕ
  read_field reg mask pos = do v ← read_reg reg; return (bit_and v mask >>> pos)

  unfoldable pub stm32h755_clock_get_frequencies : ℕ → M Frequencies
  stm32h755_clock_get_frequencies hse_frequency_hz = do
    let rcc = p.cmsis.rcc
    system_hz ← system_frequency_hz hse_frequency_hz
    d1 ← read_field Reg.rcc_d1cfgr rcc.d1cfgr_d1cpre rcc.d1cfgr_d1cpre_pos
    let cm7_hz = system_hz / core_ahb_divider_from_bits d1
    hpre ← read_field Reg.rcc_d1cfgr rcc.d1cfgr_hpre rcc.d1cfgr_hpre_pos
    let ahb_hz = cm7_hz / core_ahb_divider_from_bits hpre
    ppre1 ← read_field Reg.rcc_d2cfgr rcc.d2cfgr_d2ppre1 rcc.d2cfgr_d2ppre1_pos
    ppre2 ← read_field Reg.rcc_d2cfgr rcc.d2cfgr_d2ppre2 rcc.d2cfgr_d2ppre2_pos
    ppre3 ← read_field Reg.rcc_d1cfgr rcc.d1cfgr_d1ppre rcc.d1cfgr_d1ppre_pos
    ppre4 ← read_field Reg.rcc_d3cfgr rcc.d3cfgr_d3ppre rcc.d3cfgr_d3ppre_pos
    return (record {
      system_hz = system_hz;
      cm7_hz = cm7_hz;
      cm4_hz = ahb_hz;
      ahb_hz = ahb_hz;
      apb1_hz = ahb_hz / apb_divider_from_bits ppre1;
      apb2_hz = ahb_hz / apb_divider_from_bits ppre2;
      apb3_hz = ahb_hz / apb_divider_from_bits ppre3;
      apb4_hz = ahb_hz / apb_divider_from_bits ppre4;
    })
