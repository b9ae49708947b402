-- ===== src/Eth/Stops.antt =====
-- The steps of the Ethernet driver that stop it when they fail.
use device_abstraction_stack.Base.{
  ℕ, zero, suc, ◌≡◌, refl, arith, false, not, Bool-cases, inl, inr, has_bits,
}
use device_abstraction_stack.Machine.Reg.{Reg}
use device_abstraction_stack.Machine.Platform.{Platform}
use device_abstraction_stack.Machine.World.{World}
use device_abstraction_stack.Machine.Monad.{
  M, Error, Outcome, ok, err, spinning, io, timeout, and_then, handled,
}
use device_abstraction_stack.Eth.Mac.{enter_dma_fault_state}
use device_abstraction_stack.Eth.Ring.{tx_desc_address, cache_invalidate_descriptor, desc_own}
use device_abstraction_stack.Eth.Driver.{check_bus_error, send_polls, kick_tx}

module _ ⦃p : Platform⦄ where
  -- A run that fails leaves the driver without initialisation.
  abbrev pub Stops : {A : Type 0} → Outcome A × World p → Type 0
  Stops r = (e : Error) → r.0 ≡ err e → r.1.eth.g_initialized ≡ false

  and_then-Stops :
      {A B : Type 0} (r : Outcome A × World p) (k : A → M B)
      → Stops r
      → ((a : A) (w : World p) → Stops (k a w))
      → Stops (and_then r k)
  and_then-Stops (ok a, w) k h f e d = f a w e d
  and_then-Stops (err x, w) k h f e d = h x refl
  and_then-Stops (spinning, w) k h f e d = absurd (ground arith)

  handled-Stops :
      {A : Type 0} (r : Outcome A × World p) (handler : Error → M A)
      → ((x : Error) (w : World p) → Stops (handler x w))
      → Stops (handled r handler)
  handled-Stops (ok a, w) handler h e d = absurd (ground arith)
  handled-Stops (err x, w) handler h e d = h x w e d
  handled-Stops (spinning, w) handler h e d = absurd (ground arith)

  enter_dma_fault_state-Stops :
      {A : Type 0} (reason : Error) (w : World p) → Stops (enter_dma_fault_state {A = A} reason w)
  unfolding enter_dma_fault_state
  enter_dma_fault_state-Stops reason w e d = refl

  check_bus_error-Stops : (w : World p) → Stops (check_bus_error w)
  unfolding check_bus_error
  check_bus_error-Stops w =
      let (v, s) = p.read Reg.eth_dmacsr w.hw in
      elim (Bool-cases (has_bits v p.cmsis.eth.dmacsr_fbe)) [
        | inl set ↦ rw set (enter_dma_fault_state-Stops io (record w { hw = s }))
        | inr clear ↦ rw clear λ e d. absurd (ground arith)
      ]

  send_polls-Stops : (left current : ℕ) (w : World p) → Stops (send_polls left current w)
  unfolding send_polls
  send_polls-Stops zero current w = enter_dma_fault_state-Stops timeout w
  send_polls-Stops (suc left) current w =
      and_then-Stops _ _
        (handled-Stops (cache_invalidate_descriptor (tx_desc_address current) w)
          enter_dma_fault_state enter_dma_fault_state-Stops)
        λ a w1. and_then-Stops (check_bus_error w1) _ (check_bus_error-Stops w1) λ b w2.
          let (v, s) = p.read (Reg.eth_tx_desc current 3) w2.hw in
          elim (Bool-cases (not (has_bits v desc_own))) [
            | inl back ↦ rw back λ e d. absurd (ground arith)
            | inr owned ↦ rw owned (send_polls-Stops left current (record w2 { hw = s }))
          ]

  pub kick_tx-Stops : (current : ℕ) (w : World p) → Stops (kick_tx current w)
  unfolding kick_tx
  kick_tx-Stops current w = send_polls-Stops _ current _
