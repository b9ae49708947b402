-- ===== src/Eth/Indices.antt =====
-- The indices of the descriptor rings, over the parts of the Ethernet calls.
use device_abstraction_stack.Base.{
  ℕ, ◌<◌, ◌+◌, ◌%◌, bit_and, bit_or, arith, Bool, true, false, not, ◌||◌, Bool-cases, inl, inr,
  has_bits, ltb,
}
use device_abstraction_stack.Api.Eth.{DasEthConfig}
use device_abstraction_stack.Machine.Reg.{Reg}
use device_abstraction_stack.Machine.Platform.{Platform}
use device_abstraction_stack.Machine.World.{World}
use device_abstraction_stack.Machine.Monad.{
  M, Error, Outcome, ok, err, spinning, and_then, fail_if, not_ready, modify_reg,
}
use device_abstraction_stack.Eth.Phy.{
  no_phy, wait_clear, mdio_configure_clock, discover_phy, configure_phy, eth_wait_limit,
  read_link_state,
}
use device_abstraction_stack.Eth.Mac.{enable_and_reset_mac, configure_mac_dma, start_mac_dma}
use device_abstraction_stack.Eth.Ring.{
  initialize_tx, initialize_rx, desc_own, tx_desc_address, rx_desc_address, rx_buffer_address,
  cache_invalidate_descriptor, tx_desc_count, rx_desc_count, initialize_descriptors,
  recycle_rx_descriptor, byte_copy,
}
use device_abstraction_stack.Eth.Driver.{
  check_bus_error, desc_length, frame_valid, fill_tx_descriptor, initialize, require_initialized,
  kick_tx, send_checked, release_rx, drop_frame, take_frame, receive_frame, receive_checked,
}
use device_abstraction_stack.Eth.Frame.{
  wait_clear-KeepsIndices, enable_and_reset_mac-KeepsIndices, configure_mac_dma-KeepsIndices,
  mdio_configure_clock-KeepsIndices, start_mac_dma-KeepsIndices, KeepsIndices,
  recycle_rx_descriptor-KeepsIndices, invalidate-KeepsIndices, copy_from-KeepsIndices,
  initialize_tx-KeepsIndices, initialize_rx-KeepsIndices, discover_phy-KeepsIndices,
  configure_phy-KeepsIndices, read_link_state-KeepsIndices, check_bus_error-KeepsIndices,
  descriptor_invalidate-KeepsIndices, fill_tx_descriptor-KeepsIndices, send_polls-KeepsIndices,
}
use device_abstraction_stack.Cache.{das_cache_data_invalidate}

module _ ⦃p : Platform⦄ where
  -- Both indices are those of descriptors.
  abbrev pub InRings : World p → Type 0
  InRings w = (w.eth.g_tx_index < tx_desc_count) × (w.eth.g_rx_index < rx_desc_count)

  and_then-InRings :
      {A B : Type 0} (r : Outcome A × World p) (k : A → M B)
      → InRings r.1
      → ((a : A) (w : World p) → InRings w → InRings (k a w).1)
      → InRings (and_then r k).1
  and_then-InRings (ok a, w) k h f = f a w h
  and_then-InRings (err e, w) k h f = h
  and_then-InRings (spinning, w) k h f = h

  -- A chain that begins with a call that leaves the indices alone.
  kept-InRings :
      {A B : Type 0} (w : World p) (r : Outcome A × World p) (k : A → M B)
      → KeepsIndices w r
      → InRings w
      → ((a : A) (w1 : World p) → InRings w1 → InRings (k a w1).1)
      → InRings (and_then r k).1
  kept-InRings w r k kept h f = and_then-InRings r k (ground (arith, kept)) f

  fail_if-InRings :
      (test : Bool) (e : Error) (w : World p) → InRings w → InRings (fail_if test e w).1
  fail_if-InRings true e w h = h
  fail_if-InRings false e w h = h

  release_rx-InRings : (index : ℕ) (w : World p) → InRings w → InRings (release_rx index w).1
  unfolding release_rx
  release_rx-InRings index w h =
      kept-InRings w (recycle_rx_descriptor index w) _ (recycle_rx_descriptor-KeepsIndices index w)
        h λ a w1 h1. (h1.0, omega arith)

  drop_frame-InRings :
      (index : ℕ) (valid : Bool) (w : World p) → InRings w → InRings (drop_frame index valid w).1
  unfolding drop_frame
  drop_frame-InRings index valid w h =
      and_then-InRings (release_rx index w) _ (release_rx-InRings index w h) λ a w1 h1. h1

  take_frame-InRings :
      (index buffer length : ℕ) (w : World p)
      → InRings w
      → InRings (take_frame index buffer length w).1
  unfolding take_frame byte_copy
  take_frame-InRings index buffer length w h =
      kept-InRings w (das_cache_data_invalidate (rx_buffer_address index) length w) _
        (invalidate-KeepsIndices (rx_buffer_address index) length w) h
        λ a w1 h1.
          kept-InRings w1 (byte_copy buffer (rx_buffer_address index) length w1) _
            (copy_from-KeepsIndices length buffer (rx_buffer_address index) 0 w1) h1
            λ b w2 h2.
              and_then-InRings (release_rx index w2) _ (release_rx-InRings index w2 h2)
                λ c w3 h3. h3

  receive_frame-InRings :
      (index buffer capacity status : ℕ) (w : World p)
      → InRings w
      → InRings (receive_frame index buffer capacity status w).1
  unfolding receive_frame
  receive_frame-InRings index buffer capacity status w h =
      let length = bit_and status desc_length in
      elim (Bool-cases (not (frame_valid status) || ltb capacity length)) [
        | inl dropped ↦ rw dropped (drop_frame-InRings index (frame_valid status) w h)
        | inr kept ↦ rw kept (take_frame-InRings index buffer length w h)
      ]

  require_initialized-InRings : (w : World p) → InRings w → InRings (require_initialized w).1
  unfolding require_initialized
  require_initialized-InRings w h = ground arith

  pub receive_checked-InRings :
      (buffer capacity : ℕ) (w : World p)
      → InRings w
      → InRings (receive_checked buffer capacity w).1
  unfolding receive_checked
  receive_checked-InRings buffer capacity w h =
      and_then-InRings (require_initialized w) _ (require_initialized-InRings w h) λ a w1 h1.
        kept-InRings w1 (check_bus_error w1) _ (check_bus_error-KeepsIndices w1) h1 λ b w2 h2.
          let index = w2.eth.g_rx_index in
          kept-InRings w2 (cache_invalidate_descriptor (rx_desc_address index) w2) _
            (descriptor_invalidate-KeepsIndices (rx_desc_address index) w2) h2
            λ c w3 h3.
              let (desc3, s) = p.read (Reg.eth_rx_desc index 3) w3.hw in
              let (status, s2) = p.read (Reg.eth_rx_desc index 3) s in
              elim (Bool-cases (has_bits desc3 desc_own)) [
                | inl owned ↦ rw owned h3
                | inr given ↦
                    rw given (
                      receive_frame-InRings index buffer capacity status (record w3 { hw = s2 }) h3)
              ]

  kick_tx-InRings : (current : ℕ) (w : World p) → InRings w → InRings (kick_tx current w).1
  unfolding kick_tx
  kick_tx-InRings current w h =
      let next = (current + 1) % tx_desc_count in
      let announced : World p = record w {
        eth = record w.eth { g_tx_index = next };
        hw = p.write Reg.eth_dmactdtpr (tx_desc_address next) w.hw;
      } in
      ground (arith, send_polls-KeepsIndices eth_wait_limit current announced)

  pub send_checked-InRings :
      (frame length : ℕ) (w : World p) → InRings w → InRings (send_checked frame length w).1
  unfolding send_checked
  send_checked-InRings frame length w h =
      and_then-InRings (require_initialized w) _ (require_initialized-InRings w h) λ a w1 h1.
        kept-InRings w1 (read_link_state w1) _ (read_link_state-KeepsIndices w1) h1 λ link w2 h2.
          and_then-InRings (fail_if (not link.up) not_ready w2) _ (fail_if-InRings _ _ w2 h2)
            λ b w3 h3.
              kept-InRings w3 (check_bus_error w3) _ (check_bus_error-KeepsIndices w3) h3 λ c w4 h4.
                let index = w4.eth.g_tx_index in
                kept-InRings w4 (cache_invalidate_descriptor (tx_desc_address index) w4) _
                  (descriptor_invalidate-KeepsIndices (tx_desc_address index) w4) h4
                  λ d w5 h5.
                    let (desc3, s) = p.read (Reg.eth_tx_desc index 3) w5.hw in
                    and_then-InRings
                      (fail_if (has_bits desc3 desc_own) not_ready (record w5 { hw = s })) _
                      (fail_if-InRings _ _ (record w5 { hw = s }) h5)
                      λ e w6 h6.
                        kept-InRings w6 (fill_tx_descriptor index frame length w6) _
                          (fill_tx_descriptor-KeepsIndices index frame length w6) h6
                          λ f w7 h7. kick_tx-InRings index w7 h7

  initialize_descriptors-InRings : (w : World p) → InRings (initialize_descriptors w).1
  unfolding initialize_descriptors
  initialize_descriptors-InRings w =
      let reset : World p = record w { eth = record w.eth { g_tx_index = 0; g_rx_index = 0 } } in
      kept-InRings reset (initialize_tx tx_desc_count 0 reset) _
        (initialize_tx-KeepsIndices tx_desc_count 0 reset) (omega arith, omega arith)
        λ a w1 h1.
          kept-InRings w1 (initialize_rx rx_desc_count 0 w1) _
            (initialize_rx-KeepsIndices rx_desc_count 0 w1) h1 λ b w2 h2. h2

  pub initialize-InRings :
      (config : DasEthConfig) (w : World p) → InRings w → InRings (initialize config w).1
  unfolding initialize
  initialize-InRings config w h =
      let cleared : World p = record w {
        eth = record w.eth { g_initialized = false; g_phy_address = no_phy };
      } in
      let resetting : M (Unit {0}) =
        modify_reg Reg.eth_dmamr (λ v. bit_or v p.cmsis.eth.dmamr_swr) in
      kept-InRings cleared (enable_and_reset_mac cleared) _
        (enable_and_reset_mac-KeepsIndices cleared) h
        λ a w1 h1.
          let w2 : World p = (resetting w1).1 in
          kept-InRings w2 (wait_clear Reg.eth_dmamr p.cmsis.eth.dmamr_swr w2) _
            (wait_clear-KeepsIndices Reg.eth_dmamr p.cmsis.eth.dmamr_swr w2) h1
            λ c w3 h3.
              kept-InRings w3 (mdio_configure_clock w3) _ (mdio_configure_clock-KeepsIndices w3) h3
                λ d w4 h4.
                  kept-InRings w4 (configure_mac_dma config w4) _
                    (configure_mac_dma-KeepsIndices config w4) h4
                    λ e w5 h5.
                      and_then-InRings (initialize_descriptors w5) _
                        (initialize_descriptors-InRings w5)
                        λ f w6 h6.
                          kept-InRings w6 (discover_phy w6) _ (discover_phy-KeepsIndices w6) h6
                            λ g w7 h7.
                              kept-InRings w7 (configure_phy w7) _ (configure_phy-KeepsIndices w7)
                                h7
                                λ i w8 h8.
                                  kept-InRings w8 (start_mac_dma w8) _
                                    (start_mac_dma-KeepsIndices w8) h8 λ j w9 h9. h9
