-- ===== src/Machine/Cmsis.antt =====
-- Constants of the CMSIS device and core headers that the drivers name. The headers are not part of
-- the repository, so each constant is a parameter; a theorem that needs a documented value says so.
use device_abstraction_stack.Base.{ℕ, Bool}

-- `SysTick_LOAD_RELOAD_Msk`, `SCB_CCR_DC_Msk`, `__NVIC_PRIO_BITS`, the number of entries of
-- `NVIC->IP`, and whether the image is built with `CORE_CM7` (with `CORE_CM4` otherwise)
pub record CoreBits : Type 0 where
  pub core_cm7 : Bool
  pub systick_load_reload_msk : ℕ
  pub scb_ccr_dc_msk : ℕ
  pub nvic_prio_bits : ℕ
  pub nvic_line_count : ℕ

-- `DMA_SxCR_*`, `DMAMUX_CxCR_DMAREQ_ID`, `RCC_AHB1ENR_DMA1EN`, and the interrupt numbers
pub record DmaBits : Type 0 where
  pub en : ℕ
  pub pl_1 : ℕ
  pub pinc : ℕ
  pub minc : ℕ
  pub dir_0 : ℕ
  pub dir_1 : ℕ
  pub psize_pos : ℕ
  pub msize_pos : ℕ
  pub dmareq_id : ℕ
  pub rcc_dma1en : ℕ
  pub stream_irqn : ℕ → ℕ

-- `TIM_*`, the clock enables of TIM1 and TIM2, `RCC_CFGR_TIMPRE` and `TIM2_IRQn`
pub record TimBits : Type 0 where
  pub cr1_cen : ℕ
  pub cr1_arpe : ℕ
  pub egr_ug : ℕ
  pub dier_uie : ℕ
  pub sr_uif : ℕ
  pub ccmr2_cc4s : ℕ
  pub ccmr2_oc4m : ℕ
  pub ccmr2_oc4pe : ℕ
  pub ccmr2_oc4m_1 : ℕ
  pub ccmr2_oc4m_2 : ℕ
  pub ccer_cc4p : ℕ
  pub ccer_cc4np : ℕ
  pub ccer_cc4e : ℕ
  pub bdtr_moe : ℕ
  pub rcc_tim2en : ℕ
  pub rcc_tim1en : ℕ
  pub rcc_timpre : ℕ
  pub tim2_irqn : ℕ

-- `SPI_*`, the clock selection of SPI1 and its clock enable
pub record SpiBits : Type 0 where
  pub cr1_spe : ℕ
  pub cr1_ssi : ℕ
  pub cr1_cstart : ℕ
  pub cr2_tsize : ℕ
  pub cfg1_dsize_pos : ℕ
  pub cfg1_mbr : ℕ
  pub cfg1_mbr_pos : ℕ
  pub cfg1_rxdmaen : ℕ
  pub cfg1_txdmaen : ℕ
  pub cfg2_master : ℕ
  pub cfg2_ssm : ℕ
  pub cfg2_afcntr : ℕ
  pub cfg2_cpha : ℕ
  pub cfg2_cpol : ℕ
  pub cfg2_lsbfrst : ℕ
  pub sr_ovr : ℕ
  pub sr_modf : ℕ
  pub sr_txp : ℕ
  pub sr_rxp : ℕ
  pub sr_eot : ℕ
  pub ifcr_eotc : ℕ
  pub ifcr_txtfc : ℕ
  pub ifcr_ovrc : ℕ
  pub ifcr_modfc : ℕ
  pub rxdr_address : ℕ
  pub txdr_address : ℕ
  pub rcc_spi1en : ℕ
  pub rcc_spi123sel : ℕ
  pub rcc_spi123sel_pos : ℕ
  pub rcc_ckpersel : ℕ

-- `I2C_*`, the clock selection of I2C1 and its clock enable
pub record I2cBits : Type 0 where
  pub cr1_pe : ℕ
  pub cr2_start : ℕ
  pub cr2_stop : ℕ
  pub cr2_autoend : ℕ
  pub cr2_rd_wrn : ℕ
  pub cr2_sadd : ℕ
  pub cr2_nbytes : ℕ
  pub cr2_nbytes_pos : ℕ
  pub isr_nackf : ℕ
  pub isr_berr : ℕ
  pub isr_arlo : ℕ
  pub isr_ovr : ℕ
  pub isr_busy : ℕ
  pub isr_txis : ℕ
  pub isr_rxne : ℕ
  pub isr_tc : ℕ
  pub isr_stopf : ℕ
  pub icr_stopcf : ℕ
  pub icr_nackcf : ℕ
  pub icr_berrcf : ℕ
  pub icr_arlocf : ℕ
  pub icr_ovrcf : ℕ
  pub timingr_presc : ℕ
  pub timingr_presc_pos : ℕ
  pub timingr_scldel_pos : ℕ
  pub timingr_sdadel_pos : ℕ
  pub timingr_sclh : ℕ
  pub timingr_sclh_pos : ℕ
  pub timingr_scll : ℕ
  pub timingr_scll_pos : ℕ
  pub rcc_i2c1en : ℕ
  pub rcc_i2c123sel : ℕ
  pub rcc_i2c123sel_1 : ℕ

-- `ETH_*`, the clock enables and the reset of ETH1, and `SYSCFG_PMCR_EPIS_SEL`
pub record EthBits : Type 0 where
  pub rcc_eth1macen : ℕ
  pub rcc_eth1txen : ℕ
  pub rcc_eth1rxen : ℕ
  pub rcc_eth1macrst : ℕ
  pub syscfg_epis_sel : ℕ
  pub syscfg_epis_sel_2 : ℕ
  pub macmdioar_mb : ℕ
  pub macmdioar_cr : ℕ
  pub macmdioar_cr_div124 : ℕ
  pub macmdioar_pa : ℕ
  pub macmdioar_pa_pos : ℕ
  pub macmdioar_rda : ℕ
  pub macmdioar_rda_pos : ℕ
  pub macmdioar_moc : ℕ
  pub macmdioar_moc_rd : ℕ
  pub macmdioar_moc_wr : ℕ
  pub macmdioar_c45e : ℕ
  pub maccr_fes : ℕ
  pub maccr_dm : ℕ
  pub maccr_te : ℕ
  pub maccr_re : ℕ
  pub maccr_acs : ℕ
  pub maccr_cst : ℕ
  pub mtltqomr_tsf : ℕ
  pub mtltqomr_ftq : ℕ
  pub mtlrqomr_rsf : ℕ
  pub dmasbmr_aal : ℕ
  pub dmasbmr_fb : ℕ
  pub dmaccr_dsl : ℕ
  pub dmaccr_dsl_128bit : ℕ
  pub dmactcr_tpbl : ℕ
  pub dmactcr_tpbl_32pbl : ℕ
  pub dmactcr_st : ℕ
  pub dmacrcr_rpbl : ℕ
  pub dmacrcr_rpbl_32pbl : ℕ
  pub dmacrcr_rbsz : ℕ
  pub dmacrcr_rbsz_pos : ℕ
  pub dmacrcr_sr : ℕ
  pub dmamr_swr : ℕ
  pub dmacsr_fbe : ℕ

-- `USART_*`, the clock selections of the USARTs and their clock enables
pub record UsartBits : Type 0 where
  pub cr1_ue : ℕ
  pub cr1_te : ℕ
  pub cr1_re : ℕ
  pub cr1_m0 : ℕ
  pub cr1_m1 : ℕ
  pub cr1_pce : ℕ
  pub cr1_ps : ℕ
  pub cr2_stop_1 : ℕ
  pub isr_pe : ℕ
  pub isr_fe : ℕ
  pub isr_ne : ℕ
  pub isr_ore : ℕ
  pub isr_txe_txfnf : ℕ
  pub isr_rxne_rxfne : ℕ
  pub isr_tc : ℕ
  pub isr_teack : ℕ
  pub isr_reack : ℕ
  pub icr_pecf : ℕ
  pub icr_fecf : ℕ
  pub icr_necf : ℕ
  pub icr_orecf : ℕ
  pub rcc_usart1en : ℕ
  pub rcc_usart3en : ℕ
  pub rcc_usart16sel : ℕ
  pub rcc_usart28sel : ℕ

-- `RCC_*` of the clock tree, and of the GPIO and SYSCFG clocks
pub record RccBits : Type 0 where
  pub cr_hsidiv : ℕ
  pub cr_hsidiv_1 : ℕ
  pub cr_hsidiv_2 : ℕ
  pub cr_hsidiv_4 : ℕ
  pub cr_hsidiv_8 : ℕ
  pub cr_hsion : ℕ
  pub cr_hsirdy : ℕ
  pub cr_hseon : ℕ
  pub cr_hserdy : ℕ
  pub cr_hsebyp : ℕ
  pub cr_pll1on : ℕ
  pub cr_pll1rdy : ℕ
  pub cfgr_sw : ℕ
  pub cfgr_sw_hsi : ℕ
  pub cfgr_sw_hse : ℕ
  pub cfgr_sw_pll1 : ℕ
  pub cfgr_sws : ℕ
  pub cfgr_sws_hsi : ℕ
  pub cfgr_sws_csi : ℕ
  pub cfgr_sws_hse : ℕ
  pub cfgr_sws_pll1 : ℕ
  pub pllckselr_pllsrc : ℕ
  pub pllckselr_pllsrc_hsi : ℕ
  pub pllckselr_pllsrc_csi : ℕ
  pub pllckselr_pllsrc_hse : ℕ
  pub pllckselr_divm1 : ℕ
  pub pllckselr_divm1_pos : ℕ
  pub pll1divr_n1 : ℕ
  pub pll1divr_n1_pos : ℕ
  pub pll1divr_p1 : ℕ
  pub pll1divr_p1_pos : ℕ
  pub pll1divr_q1_pos : ℕ
  pub pll1divr_r1_pos : ℕ
  pub pllcfgr_pll1fracen : ℕ
  pub pllcfgr_pll1vcosel : ℕ
  pub pllcfgr_pll1rge : ℕ
  pub pllcfgr_pll1rge_0 : ℕ
  pub pllcfgr_pll1rge_1 : ℕ
  pub pllcfgr_pll1rge_2 : ℕ
  pub pllcfgr_pll1rge_3 : ℕ
  pub pllcfgr_divp1en : ℕ
  pub pllcfgr_divq1en : ℕ
  pub pllcfgr_divr1en : ℕ
  pub pll1fracr_fracn1 : ℕ
  pub pll1fracr_fracn1_pos : ℕ
  pub d1cfgr_d1cpre : ℕ
  pub d1cfgr_d1cpre_pos : ℕ
  pub d1cfgr_hpre : ℕ
  pub d1cfgr_hpre_pos : ℕ
  pub d1cfgr_d1ppre : ℕ
  pub d1cfgr_d1ppre_pos : ℕ
  pub d2cfgr_d2ppre1 : ℕ
  pub d2cfgr_d2ppre1_pos : ℕ
  pub d2cfgr_d2ppre2 : ℕ
  pub d2cfgr_d2ppre2_pos : ℕ
  pub d3cfgr_d3ppre : ℕ
  pub d3cfgr_d3ppre_pos : ℕ
  pub gpio_en : ℕ → ℕ
  pub syscfgen : ℕ

-- `PWR_*` and `FLASH_ACR_*`
pub record PowerBits : Type 0 where
  pub cr3_smpsen : ℕ
  pub cr3_ldoen : ℕ
  pub cr3_bypass : ℕ
  pub csr1_actvosrdy : ℕ
  pub d3cr_vos : ℕ
  pub d3cr_vos_0 : ℕ
  pub d3cr_vos_1 : ℕ
  pub d3cr_vosrdy : ℕ
  pub acr_latency : ℕ
  pub acr_latency_4ws : ℕ
  pub acr_wrhighfreq : ℕ
  pub acr_wrhighfreq_1 : ℕ

pub record Cmsis : Type 0 where
  pub core : CoreBits
  pub dma : DmaBits
  pub tim : TimBits
  pub spi : SpiBits
  pub i2c : I2cBits
  pub eth : EthBits
  pub usart : UsartBits
  pub rcc : RccBits
  pub power : PowerBits
  pub exti_irqn : ℕ → ℕ
