-- ===== src/Machine/Reg.antt =====
-- The memory-mapped registers that the drivers access through the structures of CMSIS. A register
-- of an indexed block takes its index.
use device_abstraction_stack.Base.{ℕ}

pub data Reg : Type 0 where
  -- RCC, and the block RCC_C1 or RCC_C2 of the core that the image is built for
  rcc_cr rcc_cfgr rcc_pllckselr rcc_pll1divr rcc_pll1fracr rcc_pllcfgr : Reg
  rcc_d1cfgr rcc_d2cfgr rcc_d3cfgr rcc_ahb4enr : Reg
  rcc_d1ccipr rcc_d2ccip1r rcc_d2ccip2r : Reg
  core_ahb1enr core_apb1lenr core_apb2enr core_apb4enr : Reg
  -- PWR and FLASH
  pwr_cr3 pwr_csr1 pwr_d3cr flash_acr : Reg
  -- SysTick and the system control block
  systick_ctrl systick_val scb_ccr : Reg
  -- DMA1, its streams, and DMAMUX1
  dma_lisr dma_hisr dma_lifcr dma_hifcr dmamux_cfr : Reg
  dma_cr dma_ndtr dma_par dma_m0ar dma_m1ar dma_fcr dmamux_ccr : ℕ → Reg
  -- TIM2 and TIM1
  tim2_cr1 tim2_cr2 tim2_smcr tim2_dier tim2_sr tim2_egr tim2_ccer tim2_cnt tim2_psc : Reg
  tim2_arr : Reg
  tim1_cr1 tim1_cr2 tim1_smcr tim1_dier tim1_sr tim1_egr tim1_ccmr2 tim1_ccer tim1_cnt : Reg
  tim1_psc tim1_arr tim1_ccr4 tim1_bdtr : Reg
  -- SPI1
  spi_cr1 spi_cr2 spi_cfg1 spi_cfg2 spi_ier spi_sr spi_ifcr spi_txdr spi_rxdr : Reg
  -- I2C1
  i2c_cr1 i2c_cr2 i2c_oar1 i2c_oar2 i2c_timingr i2c_timeoutr i2c_isr i2c_icr : Reg
  i2c_txdr i2c_rxdr : Reg
  -- USART1 and USART3, by their number
  usart_cr1 usart_cr2 usart_cr3 usart_brr usart_presc usart_isr usart_icr : ℕ → Reg
  usart_tdr usart_rdr : ℕ → Reg
  -- GPIO ports by their index from A, AFR with its own index, SYSCFG and EXTI
  gpio_moder gpio_otyper gpio_ospeedr gpio_pupdr gpio_idr gpio_odr gpio_bsrr : ℕ → Reg
  gpio_afr : ℕ → ℕ → Reg
  syscfg_exticr : ℕ → Reg
  exti_rtsr1 exti_ftsr1 exti_core_imr1 exti_core_pr1 : Reg
  -- ETH, its reset and its interface selection
  rcc_ahb1rstr syscfg_pmcr : Reg
  eth_macmdioar eth_macmdiodr eth_maca0hr eth_maca0lr eth_maccr eth_mtltqomr eth_mtlrqomr : Reg
  eth_dmamr eth_dmasbmr eth_dmaccr eth_dmactcr eth_dmacrcr eth_dmacier eth_dmacsr : Reg
  eth_dmactdrlr eth_dmactdlar eth_dmactdtpr eth_dmacrdrlr eth_dmacrdlar eth_dmacrdtpr : Reg
  -- The words of the Ethernet descriptors, which the DMA of ETH shares: the descriptor, the word
  eth_tx_desc eth_rx_desc : ℕ → ℕ → Reg

-- The barrier instructions of the Cortex-M.
pub data Barrier : Type 0 where
  dsb isb dmb : Barrier
