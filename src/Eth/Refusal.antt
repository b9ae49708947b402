-- ===== src/Eth/Refusal.antt =====
-- What the Ethernet driver answers while it is not initialised.
use device_abstraction_stack.Base.{
  ℕ, ◌≡◌, ◌∙◌, refl, arith, Bool, true, false, not, ◌||◌, ◌==◌, ltb,
}
use device_abstraction_stack.Api.Eth.{das_eth_max_frame_size}
use device_abstraction_stack.Eth.Handle.{das_eth_is_valid}
use device_abstraction_stack.Machine.Platform.{Platform}
use device_abstraction_stack.Machine.World.{World}
use device_abstraction_stack.Machine.Monad.{
  M, err, not_ready, invalid_argument, unsupported, ◌>>◌, and_then, fail_if,
}
use device_abstraction_stack.Eth.Driver.{
  min_frame_size, require_initialized, send_checked, receive_checked, das_eth_send, das_eth_receive,
  das_eth_link_state,
}

module _ ⦃p : Platform⦄ where
  require_initialized-refused :
      (w : World p) → w.eth.g_initialized ≡ false → require_initialized w ≡ (err not_ready, w)
  unfolding require_initialized
  require_initialized-refused w stopped = rw stopped refl

  -- A call with two guards, for its arguments and for the core, that both let it pass.
  pub guards-passed :
      {A : Type 0} (invalid missing : Bool) (m : M A) (w : World p)
      → invalid ≡ false
      → missing ≡ false
      → and_then (fail_if invalid invalid_argument w) (λ a. fail_if missing unsupported >> m) ≡ m w
  guards-passed invalid missing m w h k = rw h (rw k refl)

  send_checked-refused :
      (frame length : ℕ) (w : World p)
      → w.eth.g_initialized ≡ false
      → send_checked frame length w ≡ (err not_ready, w)
  unfolding send_checked
  send_checked-refused frame length w stopped = rw (require_initialized-refused w stopped) refl

  receive_checked-refused :
      (buffer capacity : ℕ) (w : World p)
      → w.eth.g_initialized ≡ false
      → receive_checked buffer capacity w ≡ (err not_ready, w)
  unfolding receive_checked
  receive_checked-refused buffer capacity w stopped =
      rw (require_initialized-refused w stopped) refl

  send-refused :
      (eth frame length : ℕ) (w : World p)
      → w.eth.g_initialized ≡ false
      → not p.cmsis.core.core_cm7 ≡ false
      → (not (das_eth_is_valid eth)
          || frame == 0
          || ltb length min_frame_size
          || ltb das_eth_max_frame_size length)
        ≡ false
      → das_eth_send eth frame length w ≡ (err not_ready, w)
  unfolding das_eth_send
  send-refused eth frame length w stopped core accepted =
      guards-passed _ _ (send_checked frame length) w accepted core
      ∙ send_checked-refused frame length w stopped

  receive-refused :
      (eth buffer capacity : ℕ) (received : Bool) (w : World p)
      → w.eth.g_initialized ≡ false
      → not p.cmsis.core.core_cm7 ≡ false
      → (not (das_eth_is_valid eth) || buffer == 0 || capacity == 0 || not received) ≡ false
      → das_eth_receive eth buffer capacity received w ≡ (err not_ready, w)
  unfolding das_eth_receive
  receive-refused eth buffer capacity received w stopped core accepted =
      guards-passed _ _ (receive_checked buffer capacity) w accepted core
      ∙ receive_checked-refused buffer capacity w stopped

  link_state-refused :
      (eth : ℕ) (state : Bool) (w : World p)
      → w.eth.g_initialized ≡ false
      → not p.cmsis.core.core_cm7 ≡ false
      → (not (das_eth_is_valid eth) || not state) ≡ false
      → das_eth_link_state eth state w ≡ (err not_ready, w)
  unfolding das_eth_link_state
  link_state-refused eth state w stopped core accepted =
      guards-passed _ _ _ w accepted core ∙ rw stopped refl

  -- Sends, receives and queries of the link report that the driver is not ready, and touch neither its
  -- state nor the hardware.
  abbrev pub Refuses : ℕ → ℕ → ℕ → ℕ → ℕ → World p → Type 0
  Refuses eth frame length buffer capacity w =
      (das_eth_send eth frame length w ≡ (err not_ready, w))
      × (das_eth_receive eth buffer capacity true w ≡ (err not_ready, w))
      × (das_eth_link_state eth true w ≡ (err not_ready, w))

  pub stopped-Refuses :
      (eth frame length buffer capacity : ℕ) (w : World p)
      → w.eth.g_initialized ≡ false
      → not p.cmsis.core.core_cm7 ≡ false
      → (not (das_eth_is_valid eth)
          || frame == 0
          || ltb length min_frame_size
          || ltb das_eth_max_frame_size length)
        ≡ false
      → (not (das_eth_is_valid eth) || buffer == 0 || capacity == 0 || not true) ≡ false
      → Refuses eth frame length buffer capacity w
  stopped-Refuses eth frame length buffer capacity w stopped core sends receives = (
    send-refused eth frame length w stopped core sends,
    receive-refused eth buffer capacity true w stopped core receives,
    link_state-refused eth true w stopped core (ground arith),
  )
