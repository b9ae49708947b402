-- ===== src/Eth/Calls.antt =====
-- Sequences of calls of the Ethernet driver.
use device_abstraction_stack.Base.{
  ℕ, ◌<◌, List, [], ◌∷◌, arith, Bool, true, false, Option, none, some,
}
use device_abstraction_stack.Api.Eth.{DasEthConfig}
use device_abstraction_stack.Machine.Platform.{Platform}
use device_abstraction_stack.Machine.World.{World}
use device_abstraction_stack.Machine.Monad.{M, fail_if, invalid_argument, unsupported, ◌>>◌}
use device_abstraction_stack.Eth.Ring.{tx_desc_count, rx_desc_count}
use device_abstraction_stack.Eth.Driver.{
  initialize, das_eth_init, send_checked, das_eth_send, receive_checked, das_eth_receive,
  das_eth_link_state,
}
use device_abstraction_stack.Eth.Frame.{read_link_state-KeepsIndices}
use device_abstraction_stack.Eth.Indices.{
  InRings, initialize-InRings, send_checked-InRings, receive_checked-InRings,
}

-- A call of the driver with its arguments.
pub data EthCall : Type 0 where
  init : (eth : ℕ) (config : Option DasEthConfig) → EthCall
  send : (eth frame length : ℕ) → EthCall
  receive : (eth buffer capacity : ℕ) (received : Bool) → EthCall
  link_state : (eth : ℕ) (state : Bool) → EthCall

module _ ⦃p : Platform⦄ where
  -- A call with two guards.
  guarded-InRings :
      {A : Type 0} (invalid missing : Bool) (m : M A) (w : World p)
      → InRings w
      → ((w1 : World p) → InRings w1 → InRings (m w1).1)
      → InRings ((fail_if invalid invalid_argument >> (fail_if missing unsupported >> m)) w).1
  guarded-InRings true missing m w h f = h
  guarded-InRings false true m w h f = h
  guarded-InRings false false m w h f = f w h

  das_eth_init-InRings :
      (eth : ℕ) (config : Option DasEthConfig) (w : World p)
      → InRings w
      → InRings (das_eth_init eth config w).1
  unfolding das_eth_init
  das_eth_init-InRings eth none w h = h
  das_eth_init-InRings eth (some config) w h =
      guarded-InRings _ _ (initialize config) w h (initialize-InRings config)

  das_eth_send-InRings :
      (eth frame length : ℕ) (w : World p) → InRings w → InRings (das_eth_send eth frame length w).1
  unfolding das_eth_send
  das_eth_send-InRings eth frame length w h =
      guarded-InRings _ _ (send_checked frame length) w h (send_checked-InRings frame length)

  das_eth_receive-InRings :
      (eth buffer capacity : ℕ) (received : Bool) (w : World p)
      → InRings w
      → InRings (das_eth_receive eth buffer capacity received w).1
  unfolding das_eth_receive
  das_eth_receive-InRings eth buffer capacity received w h =
      guarded-InRings _ _ (receive_checked buffer capacity) w h
        (receive_checked-InRings buffer capacity)

  das_eth_link_state-InRings :
      (eth : ℕ) (state : Bool) (w : World p)
      → InRings w
      → InRings (das_eth_link_state eth state w).1
  unfolding das_eth_link_state
  das_eth_link_state-InRings eth state w h = ground (arith, read_link_state-KeepsIndices w)

  -- The effect of a call on the state, whatever it returns.
  unfoldable pub eth_call : EthCall → World p → World p
  eth_call (init eth config) w = (das_eth_init eth config w).1
  eth_call (send eth frame length) w = (das_eth_send eth frame length w).1
  eth_call (receive eth buffer capacity received) w =
      (das_eth_receive eth buffer capacity received w).1
  eth_call (link_state eth state) w = (das_eth_link_state eth state w).1

  unfoldable pub eth_calls : List EthCall → World p → World p
  eth_calls [] w = w
  eth_calls (c ∷ cs) w = eth_calls cs (eth_call c w)

  eth_call-InRings : (c : EthCall) (w : World p) → InRings w → InRings (eth_call c w)
  unfolding eth_call
  eth_call-InRings (init eth config) w h = das_eth_init-InRings eth config w h
  eth_call-InRings (send eth frame length) w h = das_eth_send-InRings eth frame length w h
  eth_call-InRings (receive eth buffer capacity received) w h =
      das_eth_receive-InRings eth buffer capacity received w h
  eth_call-InRings (link_state eth state) w h = das_eth_link_state-InRings eth state w h

  -- Over any calls of the Ethernet driver, whatever their arguments and whatever the hardware does, the
  -- indices of the descriptor rings stay within the rings.
  pub eth_calls-InRings :
      (calls : List EthCall) (w : World p)
      → w.eth.g_tx_index < tx_desc_count
      → w.eth.g_rx_index < rx_desc_count
      → ((eth_calls calls w).eth.g_tx_index < tx_desc_count)
        × ((eth_calls calls w).eth.g_rx_index < rx_desc_count)
  unfolding eth_calls
  eth_calls-InRings [] w tx rx = (tx, rx)
  eth_calls-InRings (c ∷ cs) w tx rx =
      let (next_tx, next_rx) = eth_call-InRings c w (tx, rx) in
      eth_calls-InRings cs (eth_call c w) next_tx next_rx
