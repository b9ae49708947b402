-- ===== src/Eth/Fault.antt =====
-- What the Ethernet driver does after a fault of its DMA.
use device_abstraction_stack.Base.{
  ℕ, ◌≡◌, ◌≢◌, ◌⊎◌, ◌∙◌, sym, ap, refl, Bool, true, false, not, ◌||◌, ◌==◌, ltb, inl, inr, has_bits,
}
use device_abstraction_stack.Api.Eth.{DasEthLinkState, das_eth_max_frame_size}
use device_abstraction_stack.Eth.Handle.{das_eth_is_valid}
use device_abstraction_stack.Machine.Reg.{Reg}
use device_abstraction_stack.Machine.Platform.{Platform}
use device_abstraction_stack.Machine.World.{World}
use device_abstraction_stack.Machine.Monad.{
  M, Error, Outcome, ok, err, spinning, io, not_ready, and_then, fail_if,
}
use device_abstraction_stack.Eth.Mac.{enter_dma_fault_state}
use device_abstraction_stack.Eth.Ring.{tx_desc_address, cache_invalidate_descriptor, desc_own}
use device_abstraction_stack.Eth.Phy.{read_link_state}
use device_abstraction_stack.Eth.Frame.{
  read_link_state-KeepsIndices, check_bus_error-KeepsIndices, descriptor_invalidate-KeepsIndices,
  fill_tx_descriptor-KeepsIndices,
}
use device_abstraction_stack.Eth.Driver.{
  fill_tx_descriptor, min_frame_size, check_bus_error, require_initialized, send_checked,
  receive_checked, das_eth_send, das_eth_receive,
}
use device_abstraction_stack.Eth.Refusal.{Refuses, guards-passed, stopped-Refuses}
use device_abstraction_stack.Eth.Stops.{kick_tx-Stops}

module _ ⦃p : Platform⦄ where
  -- `DMACSR` reports a bus error when it is read next.
  abbrev pub BusError : World p → Type 0
  BusError w = has_bits (p.read Reg.eth_dmacsr w.hw).0 p.cmsis.eth.dmacsr_fbe ≡ true

  check_bus_error-io :
      (w : World p)
      → BusError w
      → (w1 : World p) × (check_bus_error w ≡ (err io, w1)) × (w1.eth.g_initialized ≡ false)
  unfolding check_bus_error enter_dma_fault_state
  check_bus_error-io w h = rw h (_, refl, refl)

  require_initialized-passed :
      (w : World p) → w.eth.g_initialized ≡ true → require_initialized w ≡ (ok tt, w)
  unfolding require_initialized
  require_initialized-passed w h = rw h refl

  receive_checked-bus_error :
      (buffer capacity : ℕ) (w w1 : World p)
      → w.eth.g_initialized ≡ true
      → check_bus_error w ≡ (err io, w1)
      → receive_checked buffer capacity w ≡ (err io, w1)
  unfolding receive_checked
  receive_checked-bus_error buffer capacity w w1 running fault =
      rw (require_initialized-passed w running, fault) refl

  send_checked-bus_error :
      (frame length : ℕ) (link : DasEthLinkState) (w w1 w2 : World p)
      → w.eth.g_initialized ≡ true
      → read_link_state w ≡ (ok link, w1)
      → link.up ≡ true
      → check_bus_error w1 ≡ (err io, w2)
      → send_checked frame length w ≡ (err io, w2)
  unfolding send_checked
  send_checked-bus_error frame length link w w1 w2 running linked up fault =
      rw (require_initialized-passed w running, linked, up, fault) refl

  -- A run that fails after the index of the transmit ring has moved from `index` leaves the driver
  -- without initialisation.
  abbrev StopsLate : {A : Type 0} → ℕ → Outcome A × World p → Type 0
  StopsLate index r =
      (e : Error) → r.0 ≡ err e → r.1.eth.g_tx_index ≢ index → r.1.eth.g_initialized ≡ false

  and_then-StopsLate :
      {A B : Type 0} (index : ℕ) (r : Outcome A × World p) (k : A → M B)
      → r.1.eth.g_tx_index ≡ index
      → ((a : A) (w : World p) → w.eth.g_tx_index ≡ index → StopsLate index (k a w))
      → StopsLate index (and_then r k)
  and_then-StopsLate index (ok a, w) k same f e d moved = f a w same e d moved
  and_then-StopsLate index (err x, w) k same f e d moved = absurd (moved same)
  and_then-StopsLate index (spinning, w) k same f e d moved = absurd (moved same)

  fail_if-index :
      (test : Bool) (reason : Error) (w : World p)
      → (fail_if test reason w).1.eth.g_tx_index ≡ w.eth.g_tx_index
  fail_if-index true reason w = refl
  fail_if-index false reason w = refl

  send_checked-StopsLate :
      (frame length : ℕ) (w : World p) → StopsLate w.eth.g_tx_index (send_checked frame length w)
  unfolding send_checked require_initialized
  send_checked-StopsLate frame length w =
      let start = w.eth.g_tx_index in
      and_then-StopsLate start (fail_if (not w.eth.g_initialized) not_ready w) _
        (fail_if-index _ _ w)
        λ a w1 h1.
          and_then-StopsLate start (read_link_state w1) _ ((read_link_state-KeepsIndices w1).0 ∙ h1)
            λ link w2 h2.
              and_then-StopsLate start (fail_if (not link.up) not_ready w2) _
                (fail_if-index _ _ w2 ∙ h2)
                λ b w3 h3.
                  and_then-StopsLate start (check_bus_error w3) _
                    ((check_bus_error-KeepsIndices w3).0 ∙ h3)
                    λ c w4 h4.
                      let index = w4.eth.g_tx_index in
                      and_then-StopsLate start
                        (cache_invalidate_descriptor (tx_desc_address index) w4) _
                        ((descriptor_invalidate-KeepsIndices (tx_desc_address index) w4).0 ∙ h4)
                        λ d w5 h5.
                          let (desc3, s) = p.read (Reg.eth_tx_desc index 3) w5.hw in
                          let w6 : World p = record w5 { hw = s } in
                          and_then-StopsLate start (fail_if (has_bits desc3 desc_own) not_ready w6)
                            _ (fail_if-index _ _ w6 ∙ h5)
                            λ f w7 h7.
                              and_then-StopsLate start (fill_tx_descriptor index frame length w7) _
                                ((fill_tx_descriptor-KeepsIndices index frame length w7).0 ∙ h7)
                                λ g w8 h8 e d m. kick_tx-Stops index w8 e d

  -- With accepted arguments on an initialised driver of the Cortex-M7, `das_eth_receive` reports
  -- `DAS_ERROR_IO` when `DMACSR` reports a bus error, and after that sends, receives and queries of
  -- the link with accepted arguments report that the driver is not ready, and touch neither its state
  -- nor the hardware.
  pub das_eth_receive-BusError :
      (eth frame length buffer capacity : ℕ) (w : World p)
      → w.eth.g_initialized ≡ true
      → BusError w
      → not p.cmsis.core.core_cm7 ≡ false
      → (not (das_eth_is_valid eth)
          || frame == 0
          || ltb length min_frame_size
          || ltb das_eth_max_frame_size length)
        ≡ false
      → (not (das_eth_is_valid eth) || buffer == 0 || capacity == 0 || not true) ≡ false
      → ((das_eth_receive eth buffer capacity true w).0 ≡ err io)
        × Refuses eth frame length buffer capacity (das_eth_receive eth buffer capacity true w).1
  unfolding das_eth_receive
  das_eth_receive-BusError eth frame length buffer capacity w running fault core sends receives =
      let (w1, failed, stopped) = check_bus_error-io w fault in
      let run : das_eth_receive eth buffer capacity true w ≡ (err io, w1) =
        guards-passed _ _ (receive_checked buffer capacity) w receives core
        ∙ receive_checked-bus_error buffer capacity w w1 running failed in
      (
        ap (λ r. r.0) run,
        rw (ap (λ r. r.1) run)
            (stopped-Refuses eth frame length buffer capacity w1 stopped core sends receives),
      )

  -- What a send has met: a bus error of the DMA, reported when the link is found up, or any failure
  -- once the index of the transmit ring has moved on, that is, once the frame is announced to the DMA.
  abbrev pub SendFault : ℕ → ℕ → ℕ → Error → World p → Type 0
  SendFault eth frame length e w =
      ((e ≡ io)
        × (w.eth.g_initialized ≡ true)
        × ((link : DasEthLinkState) × (w1 : World p) × (read_link_state w ≡ (ok link, w1))
            × (link.up ≡ true)
            × BusError w1))
      ⊎ (((das_eth_send eth frame length w).0 ≡ err e)
          × ((das_eth_send eth frame length w).1.eth.g_tx_index ≢ w.eth.g_tx_index))

  -- With accepted arguments on the Cortex-M7, `das_eth_send` reports `DAS_ERROR_IO` when the driver is
  -- initialised, the link is up, and `DMACSR` reports a bus error. After that, and after any failure
  -- once the index of the transmit ring has moved on, sends, receives and queries of the link with
  -- accepted arguments report that the driver is not ready, and touch neither its state nor the
  -- hardware.
  pub das_eth_send-SendFault :
      (eth frame length buffer capacity : ℕ) (e : Error) (w : World p)
      → SendFault eth frame length e w
      → not p.cmsis.core.core_cm7 ≡ false
      → (not (das_eth_is_valid eth)
          || frame == 0
          || ltb length min_frame_size
          || ltb das_eth_max_frame_size length)
        ≡ false
      → (not (das_eth_is_valid eth) || buffer == 0 || capacity == 0 || not true) ≡ false
      → ((das_eth_send eth frame length w).0 ≡ err e)
        × Refuses eth frame length buffer capacity (das_eth_send eth frame length w).1
  unfolding das_eth_send
  das_eth_send-SendFault eth frame length buffer capacity e w
        (inl (same, running, (link, w1, linked, up, fault))) core sends receives =
      let (w2, failed, stopped) = check_bus_error-io w1 fault in
      let run : das_eth_send eth frame length w ≡ (err io, w2) =
        guards-passed _ _ (send_checked frame length) w sends core
        ∙ send_checked-bus_error frame length link w w1 w2 running linked up failed in
      (
        ap (λ r. r.0) run ∙ ap err (sym same),
        rw (ap (λ r. r.1) run)
            (stopped-Refuses eth frame length buffer capacity w2 stopped core sends receives),
      )
  das_eth_send-SendFault eth frame length buffer capacity e w (inr (failed, moved)) core sends
        receives =
      let run : das_eth_send eth frame length w ≡ send_checked frame length w =
        guards-passed _ _ (send_checked frame length) w sends core in
      let late : StopsLate w.eth.g_tx_index (das_eth_send eth frame length w) =
        rw run (send_checked-StopsLate frame length w) in
      (
        failed,
        stopped-Refuses eth frame length buffer capacity (das_eth_send eth frame length w).1
            (late e failed moved) core sends receives,
      )
