-- ===== src/Eth/Frame.antt =====
-- The indices of the descriptor rings, over the helpers of the Ethernet driver.
use device_abstraction_stack.Base.{
  ℕ, zero, suc, ◌≡◌, refl, arith, Bool, true, not, Bool-cases, inl, inr, has_bits, ◌+◌,
}
use device_abstraction_stack.Api.Eth.{DasEthConfig}
use device_abstraction_stack.Machine.Reg.{Reg}
use device_abstraction_stack.Machine.Platform.{Platform}
use device_abstraction_stack.Machine.World.{World}
use device_abstraction_stack.Machine.Monad.{M, Outcome, ok, err, spinning, and_then, handled}
use device_abstraction_stack.Machine.Poll.{wait_mask}
use device_abstraction_stack.Cache.{
  maintain, das_cache_data_clean, das_cache_data_invalidate, das_cache_data_is_enabled,
}
use device_abstraction_stack.Eth.Ring.{
  desc_own, recycle_rx_descriptor, copy_from, byte_copy, cache_clean_descriptor,
  cache_invalidate_descriptor, clear_padding, initialize_tx, initialize_rx, give_rx_descriptor,
  tx_desc_address,
}
use device_abstraction_stack.Eth.Mac.{
  enable_and_reset_mac, configure_mac_dma, start_mac_dma, enter_dma_fault_state,
}
use device_abstraction_stack.Eth.Driver.{check_bus_error, send_polls, fill_tx_descriptor}
use device_abstraction_stack.Eth.Phy.{
  mdio_configure_clock, lan8742_smr, lan8742_bsr, lan8742_physcsr, discover_from, discover_phy,
  eth_wait_limit, wait_clear, mdio_wait_idle, mdio_read, mdio_write, phy_identified, phy_answers,
  configure_phy, read_link_state, apply_link_mode,
}

module _ ⦃p : Platform⦄ where
  abbrev pub KeepsIndices : {A : Type 0} → World p → Outcome A × World p → Type 0
  KeepsIndices w r =
      (r.1.eth.g_tx_index ≡ w.eth.g_tx_index) × (r.1.eth.g_rx_index ≡ w.eth.g_rx_index)

  pub and_then-KeepsIndices :
      {A B : Type 0} (w : World p) (r : Outcome A × World p) (k : A → M B)
      → KeepsIndices w r
      → ((a : A) (w1 : World p) → KeepsIndices w1 (k a w1))
      → KeepsIndices w (and_then r k)
  and_then-KeepsIndices w (ok a, w1) k h f = ground (arith, f a w1)
  and_then-KeepsIndices w (err e, w1) k h f = h
  and_then-KeepsIndices w (spinning, w1) k h f = h

  pub wait_mask-KeepsIndices :
      (reg : Reg) (mask : ℕ) (set : Bool) (polls : ℕ) (w : World p)
      → KeepsIndices w (wait_mask reg mask set polls w)
  unfolding wait_mask
  wait_mask-KeepsIndices reg mask set zero w = (refl, refl)
  wait_mask-KeepsIndices reg mask set (suc polls) w =
      ground
        (arith, wait_mask-KeepsIndices reg mask set polls (record w { hw = (p.read reg w.hw).1 }))

  pub copy_from-KeepsIndices :
      (left destination source i : ℕ) (w : World p)
      → KeepsIndices w (copy_from left destination source i w)
  unfolding copy_from
  copy_from-KeepsIndices zero destination source i w = (refl, refl)
  copy_from-KeepsIndices (suc left) destination source i w =
      copy_from-KeepsIndices left destination source (i + 1) _

  pub maintain-KeepsIndices :
      (by_addr : ℕ → ℕ → p.State → p.State) (address size : ℕ) (w : World p)
      → KeepsIndices w (maintain by_addr address size w)
  unfolding maintain das_cache_data_is_enabled
  maintain-KeepsIndices by_addr address size w = ground arith

  pub clean-KeepsIndices :
      (address size : ℕ) (w : World p) → KeepsIndices w (das_cache_data_clean address size w)
  unfolding das_cache_data_clean
  clean-KeepsIndices address size w = maintain-KeepsIndices _ address size w

  pub invalidate-KeepsIndices :
      (address size : ℕ) (w : World p) → KeepsIndices w (das_cache_data_invalidate address size w)
  unfolding das_cache_data_invalidate
  invalidate-KeepsIndices address size w = maintain-KeepsIndices _ address size w

  mdio_wait_idle-KeepsIndices : (w : World p) → KeepsIndices w (mdio_wait_idle w)
  unfolding mdio_wait_idle wait_clear
  mdio_wait_idle-KeepsIndices w = wait_mask-KeepsIndices _ _ _ eth_wait_limit w

  pub mdio_read-KeepsIndices :
      (address register : ℕ) (value : Bool) (w : World p)
      → KeepsIndices w (mdio_read address register value w)
  unfolding mdio_read
  mdio_read-KeepsIndices address register value w = grind (arith, mdio_wait_idle-KeepsIndices)

  pub mdio_write-KeepsIndices :
      (address register value : ℕ) (w : World p)
      → KeepsIndices w (mdio_write address register value w)
  unfolding mdio_write
  mdio_write-KeepsIndices address register value w = grind (arith, mdio_wait_idle-KeepsIndices)

  phy_identified-KeepsIndices :
      (address : ℕ) (w : World p) → KeepsIndices w (phy_identified address w)
  unfolding phy_identified
  phy_identified-KeepsIndices address w = grind (arith, mdio_read-KeepsIndices)

  phy_answers-KeepsIndices : (address : ℕ) (w : World p) → KeepsIndices w (phy_answers address w)
  unfolding phy_answers
  phy_answers-KeepsIndices address w =
      let after = (mdio_read address lan8742_smr true w).1 in
      ground (
        arith,
        mdio_read-KeepsIndices address lan8742_smr true w,
        phy_identified-KeepsIndices address after,
      )

  discover_from-KeepsIndices :
      (left address : ℕ) (w : World p) → KeepsIndices w (discover_from left address w)
  unfolding discover_from
  discover_from-KeepsIndices zero address w = (refl, refl)
  discover_from-KeepsIndices (suc left) address w =
      let tried = phy_answers address w in
      ground (
        arith,
        phy_answers-KeepsIndices address w,
        discover_from-KeepsIndices left (address + 1) tried.1,
      )

  pub discover_phy-KeepsIndices : (w : World p) → KeepsIndices w (discover_phy w)
  unfolding discover_phy
  discover_phy-KeepsIndices w =
      discover_from-KeepsIndices 32 0 (record w { eth = record w.eth { g_phy_address = 0xff } })

  pub configure_phy-KeepsIndices : (w : World p) → KeepsIndices w (configure_phy w)
  unfolding configure_phy
  configure_phy-KeepsIndices w = grind (arith, mdio_read-KeepsIndices, mdio_write-KeepsIndices)

  pub read_link_state-KeepsIndices : (w : World p) → KeepsIndices w (read_link_state w)
  unfolding read_link_state apply_link_mode
  read_link_state-KeepsIndices w =
      and_then-KeepsIndices w (mdio_read w.eth.g_phy_address lan8742_bsr true w) _
        (mdio_read-KeepsIndices w.eth.g_phy_address lan8742_bsr true w)
        λ a w1.
          and_then-KeepsIndices w1 (mdio_read w1.eth.g_phy_address lan8742_bsr true w1) _
            (mdio_read-KeepsIndices w1.eth.g_phy_address lan8742_bsr true w1)
            λ status w2.
              ground (arith, mdio_read-KeepsIndices w2.eth.g_phy_address lan8742_physcsr true w2)

  pub check_bus_error-KeepsIndices : (w : World p) → KeepsIndices w (check_bus_error w)
  unfolding check_bus_error enter_dma_fault_state
  check_bus_error-KeepsIndices w = ground arith

  pub descriptor_clean-KeepsIndices :
      (descriptor : ℕ) (w : World p) → KeepsIndices w (cache_clean_descriptor descriptor w)
  unfolding cache_clean_descriptor
  descriptor_clean-KeepsIndices descriptor w = clean-KeepsIndices descriptor _ w

  pub descriptor_invalidate-KeepsIndices :
      (descriptor : ℕ) (w : World p) → KeepsIndices w (cache_invalidate_descriptor descriptor w)
  unfolding cache_invalidate_descriptor
  descriptor_invalidate-KeepsIndices descriptor w = invalidate-KeepsIndices descriptor _ w

  pub recycle_rx_descriptor-KeepsIndices :
      (index : ℕ) (w : World p) → KeepsIndices w (recycle_rx_descriptor index w)
  unfolding recycle_rx_descriptor give_rx_descriptor enter_dma_fault_state
  recycle_rx_descriptor-KeepsIndices index w =
      grind (arith, invalidate-KeepsIndices, descriptor_clean-KeepsIndices)

  pub initialize_tx-KeepsIndices :
      (left i : ℕ) (w : World p) → KeepsIndices w (initialize_tx left i w)
  unfolding initialize_tx clear_padding
  initialize_tx-KeepsIndices zero i w = (refl, refl)
  initialize_tx-KeepsIndices (suc left) i w =
      grind (arith, descriptor_clean-KeepsIndices, initialize_tx-KeepsIndices left (i + 1))

  pub initialize_rx-KeepsIndices :
      (left i : ℕ) (w : World p) → KeepsIndices w (initialize_rx left i w)
  unfolding initialize_rx clear_padding give_rx_descriptor
  initialize_rx-KeepsIndices zero i w = (refl, refl)
  initialize_rx-KeepsIndices (suc left) i w = grind (
    arith,
    invalidate-KeepsIndices,
    descriptor_clean-KeepsIndices,
    initialize_rx-KeepsIndices left (i + 1),
  )

  pub send_polls-KeepsIndices :
      (left current : ℕ) (w : World p) → KeepsIndices w (send_polls left current w)
  unfolding send_polls enter_dma_fault_state
  send_polls-KeepsIndices zero current w = (refl, refl)
  send_polls-KeepsIndices (suc left) current w =
      let descriptor = tx_desc_address current in
      and_then-KeepsIndices w
        (handled (cache_invalidate_descriptor descriptor w) (enter_dma_fault_state {A = Unit {0}}))
        _ (ground (arith, descriptor_invalidate-KeepsIndices descriptor w))
        λ a w1.
          and_then-KeepsIndices w1 (check_bus_error w1) _ (check_bus_error-KeepsIndices w1) λ b w2.
            let (v, s) = p.read (Reg.eth_tx_desc current 3) w2.hw in
            elim (Bool-cases (not (has_bits v desc_own))) [
              | inl back ↦ rw back (refl, refl)
              | inr owned ↦ rw owned (send_polls-KeepsIndices left current (record w2 { hw = s }))
            ]

  pub fill_tx_descriptor-KeepsIndices :
      (index frame length : ℕ) (w : World p)
      → KeepsIndices w (fill_tx_descriptor index frame length w)
  unfolding fill_tx_descriptor byte_copy
  fill_tx_descriptor-KeepsIndices index frame length w =
      grind (arith, copy_from-KeepsIndices, clean-KeepsIndices, descriptor_clean-KeepsIndices)

  pub wait_clear-KeepsIndices :
      (reg : Reg) (mask : ℕ) (w : World p) → KeepsIndices w (wait_clear reg mask w)
  unfolding wait_clear
  wait_clear-KeepsIndices reg mask w = wait_mask-KeepsIndices reg mask _ eth_wait_limit w

  pub enable_and_reset_mac-KeepsIndices : (w : World p) → KeepsIndices w (enable_and_reset_mac w)
  unfolding enable_and_reset_mac
  enable_and_reset_mac-KeepsIndices w = (refl, refl)

  pub configure_mac_dma-KeepsIndices :
      (config : DasEthConfig) (w : World p) → KeepsIndices w (configure_mac_dma config w)
  unfolding configure_mac_dma
  configure_mac_dma-KeepsIndices config w = (refl, refl)

  pub mdio_configure_clock-KeepsIndices : (w : World p) → KeepsIndices w (mdio_configure_clock w)
  unfolding mdio_configure_clock
  mdio_configure_clock-KeepsIndices w = (refl, refl)

  pub start_mac_dma-KeepsIndices : (w : World p) → KeepsIndices w (start_mac_dma w)
  unfolding start_mac_dma
  start_mac_dma-KeepsIndices w = (refl, refl)
