-- ===== src/Eth/Mac.antt =====
-- The registers of the MAC and its DMA in src/device/stm32h755/eth.c.
use device_abstraction_stack.Base.{ℕ, false, bit_and, bit_or, bit_clear, ◌<<<◌}
use device_abstraction_stack.Api.Eth.{DasEthConfig}
use device_abstraction_stack.Machine.Reg.{Reg, Barrier}
use device_abstraction_stack.Machine.Platform.{Platform}
use device_abstraction_stack.Machine.Monad.{
  M, Error, fail, ◌>>=◌, ◌>>◌, get_world, set_eth, read_reg, write_reg, modify_reg, barrier,
}

abbrev pub eth_buffer_size : ℕ
eth_buffer_size = 1536

module _ ⦃p : Platform⦄ where
  unfoldable pub enable_and_reset_mac : M (Unit {0})
  enable_and_reset_mac = do
    let eth = p.cmsis.eth
    modify_reg Reg.core_ahb1enr
        (λ v. bit_or v (bit_or (bit_or eth.rcc_eth1macen eth.rcc_eth1txen) eth.rcc_eth1rxen))
    modify_reg Reg.core_apb4enr (λ v. bit_or v p.cmsis.rcc.syscfgen)
    unused ← read_reg Reg.core_ahb1enr
    unused' ← read_reg Reg.core_apb4enr
    barrier Barrier.dsb
    modify_reg Reg.rcc_ahb1rstr (λ v. bit_or v eth.rcc_eth1macrst)
    barrier Barrier.dsb
    modify_reg Reg.rcc_ahb1rstr (λ v. bit_clear v eth.rcc_eth1macrst)
    barrier Barrier.dsb
    modify_reg Reg.syscfg_pmcr (λ v. bit_or (bit_clear v eth.syscfg_epis_sel) eth.syscfg_epis_sel_2)
    unused'' ← read_reg Reg.syscfg_pmcr
    barrier Barrier.dsb

  unfoldable pub configure_mac_dma : DasEthConfig → M (Unit {0})
  configure_mac_dma config = do
    let eth = p.cmsis.eth
    write_reg Reg.eth_maca0hr (bit_or (config.mac 5 <<< 8) (config.mac 4))
    write_reg Reg.eth_maca0lr (
        bit_or (bit_or (bit_or (config.mac 3 <<< 24) (config.mac 2 <<< 16)) (config.mac 1 <<< 8))
          (config.mac 0))
    modify_reg Reg.eth_maccr (λ v.
        bit_or
          (bit_or
            (bit_or
              (bit_or
                (bit_clear v
                  (bit_or (bit_or (bit_or eth.maccr_fes eth.maccr_dm) eth.maccr_te) eth.maccr_re))
                eth.maccr_fes)
              eth.maccr_dm)
            eth.maccr_acs)
          eth.maccr_cst)
    modify_reg Reg.eth_mtltqomr (λ v. bit_or v eth.mtltqomr_tsf)
    modify_reg Reg.eth_mtlrqomr (λ v. bit_or v eth.mtlrqomr_rsf)
    modify_reg Reg.eth_dmasbmr (λ v. bit_or v (bit_or eth.dmasbmr_aal eth.dmasbmr_fb))
    modify_reg Reg.eth_dmaccr (λ v. bit_or (bit_clear v eth.dmaccr_dsl) eth.dmaccr_dsl_128bit)
    modify_reg Reg.eth_dmactcr (λ v. bit_or (bit_clear v eth.dmactcr_tpbl) eth.dmactcr_tpbl_32pbl)
    modify_reg Reg.eth_dmacrcr (λ v.
        bit_or
          (bit_or (bit_clear v (bit_or eth.dmacrcr_rpbl eth.dmacrcr_rbsz)) eth.dmacrcr_rpbl_32pbl)
          (bit_and (eth_buffer_size <<< eth.dmacrcr_rbsz_pos) eth.dmacrcr_rbsz))
    write_reg Reg.eth_dmacier 0

  unfoldable pub start_mac_dma : M (Unit {0})
  start_mac_dma = do
    let eth = p.cmsis.eth
    modify_reg Reg.eth_maccr (λ v. bit_or v (bit_or eth.maccr_te eth.maccr_re))
    modify_reg Reg.eth_mtltqomr (λ v. bit_or v eth.mtltqomr_ftq)
    modify_reg Reg.eth_dmactcr (λ v. bit_or v eth.dmactcr_st)
    modify_reg Reg.eth_dmacrcr (λ v. bit_or v eth.dmacrcr_sr)
    barrier Barrier.dsb

  unfoldable pub enter_dma_fault_state : {A : Type 0} → Error → M A
  enter_dma_fault_state reason = do
    w ← get_world
    set_eth (record w.eth { g_initialized = false })
    modify_reg Reg.eth_dmactcr (λ v. bit_clear v p.cmsis.eth.dmactcr_st)
    modify_reg Reg.eth_dmacrcr (λ v. bit_clear v p.cmsis.eth.dmacrcr_sr)
    modify_reg Reg.eth_maccr (λ v. bit_clear v (bit_or p.cmsis.eth.maccr_te p.cmsis.eth.maccr_re))
    barrier Barrier.dsb
    fail reason
