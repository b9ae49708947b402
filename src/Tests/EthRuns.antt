-- ===== src/Tests/EthRuns.antt =====
-- The Ethernet driver on a board that has received a frame, and on one whose DMA has met a bus error.
use device_abstraction_stack.Base.{arith, ℕ, List, [], ◌∷◌, ◌<◌, ◌≤◌, ◌≡◌, ◌⊎◌, inl, refl, true}
use device_abstraction_stack.Api.Eth.{DasEthLinkState, das_eth_duplex_full, das_eth_max_frame_size}
use device_abstraction_stack.Machine.Reg.{Reg}
use device_abstraction_stack.Machine.Platform.{Platform}
use device_abstraction_stack.Machine.World.{World, EthVars}
use device_abstraction_stack.Machine.Monad.{ok, err, io}
use device_abstraction_stack.Cache.{
  das_cache_data_invalidate, das_cache_data_clean, das_cache_data_is_enabled, has_dcache, maintain,
}
use device_abstraction_stack.Cache.Range.{cache_range, line_range, line_start}
use device_abstraction_stack.Eth.Handle.{das_eth_is_valid, instance_from_handle}
use device_abstraction_stack.Eth.Ring.{
  tx_desc_count, rx_desc_count, byte_copy, copy_from, cache_clean_descriptor,
  cache_invalidate_descriptor, give_rx_descriptor, recycle_rx_descriptor,
}
use device_abstraction_stack.Eth.Driver.{
  min_frame_size, frame_valid, require_initialized, check_bus_error, release_rx, take_frame,
  receive_frame, receive_checked, das_eth_receive, das_eth_send,
}
use device_abstraction_stack.Eth.Receive.{das_eth_receive-Received}
use device_abstraction_stack.Eth.Fault.{das_eth_receive-BusError, das_eth_send-SendFault}
use device_abstraction_stack.Eth.Refusal.{Refuses}
use device_abstraction_stack.Machine.Poll.{wait_mask}
use device_abstraction_stack.Eth.Phy.{
  read_link_state, mdio_read, mdio_wait_idle, wait_clear, mdio_command, link_mode, apply_link_mode,
}
use device_abstraction_stack.Eth.Calls.{EthCall, receive, eth_calls, eth_calls-InRings}
use device_abstraction_stack.Tests.Board.{board, fresh, no_eth, no_streams}

abbrev eth1_handle : ℕ
eth1_handle = 0x4554_4801

abbrev received_length : ℕ
received_length = 60

-- A whole frame of 60 bytes in each receive descriptor
abbrev frame_words : Reg → ℕ
frame_words (Reg.eth_rx_desc i n) = 0x3000_003c
frame_words r = 0

abbrev bus_error_words : Reg → ℕ
bus_error_words Reg.eth_dmacsr = 0x1000
bus_error_words Reg.eth_macmdiodr = 0x14
bus_error_words r = 0

abbrev receiving : Platform
receiving = record board { read = λ r s. (frame_words r, s) }

abbrev faulty : Platform
faulty = record board { read = λ r s. (bus_error_words r, s) }

abbrev running : EthVars
running = record no_eth { g_initialized = true; g_phy_address = 0; g_rx_index = 3 }

abbrev waiting : World receiving
waiting = record { hw = 0; time = fresh.time; dma = no_streams; eth = running }

abbrev before : World faulty
before = record { hw = 0; time = fresh.time; dma = no_streams; eth = running }

frame_received :
    (das_eth_receive ⦃p = receiving⦄ eth1_handle 0x2400_0000 1518 true waiting).0
    ≡ ok received_length
unfolding das_eth_receive das_eth_is_valid instance_from_handle receive_checked require_initialized
    check_bus_error cache_invalidate_descriptor das_cache_data_invalidate maintain cache_range
    line_range line_start das_cache_data_is_enabled has_dcache receive_frame frame_valid take_frame
    byte_copy copy_from release_rx recycle_rx_descriptor give_rx_descriptor cache_clean_descriptor
    das_cache_data_clean
frame_received = refl

das_eth_receive-Received_example :
    (received_length ≡ 0)
    ⊎ ((min_frame_size ≤ received_length)
        × (received_length ≤ das_eth_max_frame_size)
        × (received_length ≤ 1518))
das_eth_receive-Received_example =
    das_eth_receive-Received ⦃p = receiving⦄ eth1_handle 0x2400_0000 1518 received_length true
      waiting frame_received

handle_accepted : das_eth_is_valid eth1_handle ≡ true
unfolding das_eth_is_valid instance_from_handle
handle_accepted = refl

das_eth_receive-BusError_example :
    ((das_eth_receive ⦃p = faulty⦄ eth1_handle 0x2400_1000 1518 true before).0 ≡ err io)
    × Refuses ⦃p = faulty⦄ eth1_handle 0x2400_0000 60 0x2400_1000 1518
        (das_eth_receive ⦃p = faulty⦄ eth1_handle 0x2400_1000 1518 true before).1
das_eth_receive-BusError_example =
    das_eth_receive-BusError ⦃p = faulty⦄ eth1_handle 0x2400_0000 60 0x2400_1000 1518 before refl
      refl refl (rw handle_accepted refl) (rw handle_accepted refl)

abbrev slow_link : DasEthLinkState
slow_link = record { up = true; speed_mbps = 10; duplex = das_eth_duplex_full }

linked : read_link_state ⦃p = faulty⦄ before ≡ (ok slow_link, before)
unfolding read_link_state mdio_read mdio_wait_idle wait_clear wait_mask mdio_command link_mode
    apply_link_mode
linked = refl

das_eth_send-SendFault_example :
    ((das_eth_send ⦃p = faulty⦄ eth1_handle 0x2400_0000 60 before).0 ≡ err io)
    × Refuses ⦃p = faulty⦄ eth1_handle 0x2400_0000 60 0x2400_1000 1518
        (das_eth_send ⦃p = faulty⦄ eth1_handle 0x2400_0000 60 before).1
das_eth_send-SendFault_example =
    das_eth_send-SendFault ⦃p = faulty⦄ eth1_handle 0x2400_0000 60 0x2400_1000 1518 io before
      (inl (refl, refl, (slow_link, before, linked, refl, refl))) refl (rw handle_accepted refl)
      (rw handle_accepted refl)

abbrev receive_twice : List EthCall
receive_twice =
    receive eth1_handle 0x2400_0000 1518 true ∷ receive eth1_handle 0x2400_0000 1518 true ∷ []

eth_calls-InRings_example :
    ((eth_calls ⦃p = receiving⦄ receive_twice waiting).eth.g_tx_index < tx_desc_count)
    × ((eth_calls ⦃p = receiving⦄ receive_twice waiting).eth.g_rx_index < rx_desc_count)
eth_calls-InRings_example =
    eth_calls-InRings ⦃p = receiving⦄ receive_twice waiting (omega arith) (omega arith)
