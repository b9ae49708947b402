-- ===== src/Tests/Bits.antt =====
-- The constants of the CMSIS device header, for the tests, with the documented bits of the registers.
use device_abstraction_stack.Base.{◌+◌, ◌^◌, true, ◌==◌, if◌then◌else◌}
use device_abstraction_stack.Machine.Cmsis.{
  Cmsis, CoreBits, DmaBits, TimBits, SpiBits, I2cBits, EthBits, UsartBits, RccBits, PowerBits,
}

abbrev core_bits : CoreBits
core_bits = record {
  core_cm7 = true;
  systick_load_reload_msk = 0xff_ffff;
  scb_ccr_dc_msk = 0x1_0000;
  nvic_prio_bits = 4;
  nvic_line_count = 240;
}

abbrev dma_bits : DmaBits
dma_bits = record {
  en = 0x1;
  pl_1 = 0x2_0000;
  pinc = 0x200;
  minc = 0x400;
  dir_0 = 0x40;
  dir_1 = 0x80;
  psize_pos = 11;
  msize_pos = 13;
  dmareq_id = 0xff;
  rcc_dma1en = 0x1;
  stream_irqn = λ i. if i == 7 then 47 else 11 + i;
}

abbrev tim_bits : TimBits
tim_bits = record {
  cr1_cen = 0x1;
  cr1_arpe = 0x80;
  egr_ug = 0x1;
  dier_uie = 0x1;
  sr_uif = 0x1;
  ccmr2_cc4s = 0x300;
  ccmr2_oc4m = 0x100_7000;
  ccmr2_oc4pe = 0x800;
  ccmr2_oc4m_1 = 0x2000;
  ccmr2_oc4m_2 = 0x4000;
  ccer_cc4p = 0x2000;
  ccer_cc4np = 0x8000;
  ccer_cc4e = 0x1000;
  bdtr_moe = 0x8000;
  rcc_tim2en = 0x1;
  rcc_tim1en = 0x1;
  rcc_timpre = 0x8000;
  tim2_irqn = 28;
}

abbrev spi_bits : SpiBits
spi_bits = record {
  cr1_spe = 0x1;
  cr1_ssi = 0x1000;
  cr1_cstart = 0x200;
  cr2_tsize = 0xffff;
  cfg1_dsize_pos = 0;
  cfg1_mbr = 0x7000_0000;
  cfg1_mbr_pos = 28;
  cfg1_rxdmaen = 0x4000;
  cfg1_txdmaen = 0x8000;
  cfg2_master = 0x40_0000;
  cfg2_ssm = 0x400_0000;
  cfg2_afcntr = 0x8000_0000;
  cfg2_cpha = 0x100_0000;
  cfg2_cpol = 0x200_0000;
  cfg2_lsbfrst = 0x80_0000;
  sr_ovr = 0x40;
  sr_modf = 0x200;
  sr_txp = 0x2;
  sr_rxp = 0x1;
  sr_eot = 0x8;
  ifcr_eotc = 0x8;
  ifcr_txtfc = 0x10;
  ifcr_ovrc = 0x40;
  ifcr_modfc = 0x200;
  rxdr_address = 0x4001_3030;
  txdr_address = 0x4001_3020;
  rcc_spi1en = 0x1000;
  rcc_spi123sel = 0x7000;
  rcc_spi123sel_pos = 12;
  rcc_ckpersel = 0x3000_0000;
}

abbrev eth_bits : EthBits
eth_bits = record {
  rcc_eth1macen = 0x8000;
  rcc_eth1txen = 0x1_0000;
  rcc_eth1rxen = 0x2_0000;
  rcc_eth1macrst = 0x8000;
  syscfg_epis_sel = 0xe0_0000;
  syscfg_epis_sel_2 = 0x80_0000;
  macmdioar_mb = 0x1;
  macmdioar_cr = 0xf00;
  macmdioar_cr_div124 = 0x500;
  macmdioar_pa = 0x3e0_0000;
  macmdioar_pa_pos = 21;
  macmdioar_rda = 0x1f_0000;
  macmdioar_rda_pos = 16;
  macmdioar_moc = 0xc;
  macmdioar_moc_rd = 0xc;
  macmdioar_moc_wr = 0x4;
  macmdioar_c45e = 0x2;
  maccr_fes = 0x4000;
  maccr_dm = 0x2000;
  maccr_te = 0x2;
  maccr_re = 0x1;
  maccr_acs = 0x10_0000;
  maccr_cst = 0x20_0000;
  mtltqomr_tsf = 0x2;
  mtltqomr_ftq = 0x1;
  mtlrqomr_rsf = 0x20;
  dmasbmr_aal = 0x1000;
  dmasbmr_fb = 0x1;
  dmaccr_dsl = 0x1c_0000;
  dmaccr_dsl_128bit = 0x8_0000;
  dmactcr_tpbl = 0x3f_0000;
  dmactcr_tpbl_32pbl = 0x20_0000;
  dmactcr_st = 0x1;
  dmacrcr_rpbl = 0x3f_0000;
  dmacrcr_rpbl_32pbl = 0x20_0000;
  dmacrcr_rbsz = 0x7ffe;
  dmacrcr_rbsz_pos = 1;
  dmacrcr_sr = 0x1;
  dmamr_swr = 0x1;
  dmacsr_fbe = 0x1000;
}

abbrev i2c_bits : I2cBits
i2c_bits = record {
  cr1_pe = 0x1;
  cr2_start = 0x2000;
  cr2_stop = 0x4000;
  cr2_autoend = 0x200_0000;
  cr2_rd_wrn = 0x400;
  cr2_sadd = 0x3ff;
  cr2_nbytes = 0xff_0000;
  cr2_nbytes_pos = 16;
  isr_nackf = 0x10;
  isr_berr = 0x100;
  isr_arlo = 0x200;
  isr_ovr = 0x400;
  isr_busy = 0x8000;
  isr_txis = 0x2;
  isr_rxne = 0x4;
  isr_tc = 0x40;
  isr_stopf = 0x20;
  icr_stopcf = 0x20;
  icr_nackcf = 0x10;
  icr_berrcf = 0x100;
  icr_arlocf = 0x200;
  icr_ovrcf = 0x400;
  timingr_presc = 0xf000_0000;
  timingr_presc_pos = 28;
  timingr_scldel_pos = 20;
  timingr_sdadel_pos = 16;
  timingr_sclh = 0xff00;
  timingr_sclh_pos = 8;
  timingr_scll = 0xff;
  timingr_scll_pos = 0;
  rcc_i2c1en = 0x20_0000;
  rcc_i2c123sel = 0x3000;
  rcc_i2c123sel_1 = 0x2000;
}

abbrev usart_bits : UsartBits
usart_bits = record {
  cr1_ue = 0x1;
  cr1_te = 0x8;
  cr1_re = 0x4;
  cr1_m0 = 0x1000;
  cr1_m1 = 0x1000_0000;
  cr1_pce = 0x400;
  cr1_ps = 0x200;
  cr2_stop_1 = 0x2000;
  isr_pe = 0x1;
  isr_fe = 0x2;
  isr_ne = 0x4;
  isr_ore = 0x8;
  isr_txe_txfnf = 0x80;
  isr_rxne_rxfne = 0x20;
  isr_tc = 0x40;
  isr_teack = 0x20_0000;
  isr_reack = 0x40_0000;
  icr_pecf = 0x1;
  icr_fecf = 0x2;
  icr_necf = 0x4;
  icr_orecf = 0x8;
  rcc_usart1en = 0x10;
  rcc_usart3en = 0x4_0000;
  rcc_usart16sel = 0x38;
  rcc_usart28sel = 0x7;
}

abbrev rcc_bits : RccBits
rcc_bits = record {
  cr_hsidiv = 0x18;
  cr_hsidiv_1 = 0;
  cr_hsidiv_2 = 0x8;
  cr_hsidiv_4 = 0x10;
  cr_hsidiv_8 = 0x18;
  cr_hsion = 0x1;
  cr_hsirdy = 0x4;
  cr_hseon = 0x1_0000;
  cr_hserdy = 0x2_0000;
  cr_hsebyp = 0x4_0000;
  cr_pll1on = 0x100_0000;
  cr_pll1rdy = 0x200_0000;
  cfgr_sw = 0x7;
  cfgr_sw_hsi = 0;
  cfgr_sw_hse = 0x2;
  cfgr_sw_pll1 = 0x3;
  cfgr_sws = 0x38;
  cfgr_sws_hsi = 0;
  cfgr_sws_csi = 0x8;
  cfgr_sws_hse = 0x10;
  cfgr_sws_pll1 = 0x18;
  pllckselr_pllsrc = 0x3;
  pllckselr_pllsrc_hsi = 0;
  pllckselr_pllsrc_csi = 0x1;
  pllckselr_pllsrc_hse = 0x2;
  pllckselr_divm1 = 0x3f0;
  pllckselr_divm1_pos = 4;
  pll1divr_n1 = 0x1ff;
  pll1divr_n1_pos = 0;
  pll1divr_p1 = 0xfe00;
  pll1divr_p1_pos = 9;
  pll1divr_q1_pos = 16;
  pll1divr_r1_pos = 24;
  pllcfgr_pll1fracen = 0x1;
  pllcfgr_pll1vcosel = 0x2;
  pllcfgr_pll1rge = 0xc;
  pllcfgr_pll1rge_0 = 0;
  pllcfgr_pll1rge_1 = 0x4;
  pllcfgr_pll1rge_2 = 0x8;
  pllcfgr_pll1rge_3 = 0xc;
  pllcfgr_divp1en = 0x1_0000;
  pllcfgr_divq1en = 0x2_0000;
  pllcfgr_divr1en = 0x4_0000;
  pll1fracr_fracn1 = 0xfff8;
  pll1fracr_fracn1_pos = 3;
  d1cfgr_d1cpre = 0xf00;
  d1cfgr_d1cpre_pos = 8;
  d1cfgr_hpre = 0xf;
  d1cfgr_hpre_pos = 0;
  d1cfgr_d1ppre = 0x70;
  d1cfgr_d1ppre_pos = 4;
  d2cfgr_d2ppre1 = 0x70;
  d2cfgr_d2ppre1_pos = 4;
  d2cfgr_d2ppre2 = 0x700;
  d2cfgr_d2ppre2_pos = 8;
  d3cfgr_d3ppre = 0x70;
  d3cfgr_d3ppre_pos = 4;
  gpio_en = λ i. 2 ^ i;
  syscfgen = 0x2;
}

abbrev power_bits : PowerBits
power_bits = record {
  cr3_smpsen = 0x4;
  cr3_ldoen = 0x2;
  cr3_bypass = 0x1;
  csr1_actvosrdy = 0x2000;
  d3cr_vos = 0xc000;
  d3cr_vos_0 = 0x4000;
  d3cr_vos_1 = 0x8000;
  d3cr_vosrdy = 0x2000;
  acr_latency = 0xf;
  acr_latency_4ws = 0x4;
  acr_wrhighfreq = 0x30;
  acr_wrhighfreq_1 = 0x20;
}

abbrev pub stm32h755 : Cmsis
stm32h755 = record {
  core = core_bits;
  dma = dma_bits;
  tim = tim_bits;
  spi = spi_bits;
  i2c = i2c_bits;
  eth = eth_bits;
  usart = usart_bits;
  rcc = rcc_bits;
  power = power_bits;
  exti_irqn = λ i. 6 + i;
}
