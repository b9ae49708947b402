-- ===== src/Api/Eth.antt =====
-- include/das/eth.h
use device_abstraction_stack.Base.{ℕ, Bool, uint32_max}

abbrev pub das_eth_invalid : ℕ
das_eth_invalid = uint32_max

abbrev pub das_eth_mac_address_size : ℕ
das_eth_mac_address_size = 6

abbrev pub das_eth_max_frame_size : ℕ
das_eth_max_frame_size = 1518

-- `das_eth_config_t`: the bytes of the address.
pub record DasEthConfig : Type 0 where
  pub mac : ℕ → ℕ

abbrev pub das_eth_duplex_unknown : ℕ
das_eth_duplex_unknown = 0

abbrev pub das_eth_duplex_half : ℕ
das_eth_duplex_half = 1

abbrev pub das_eth_duplex_full : ℕ
das_eth_duplex_full = 2

-- `das_eth_link_state_t`
pub record DasEthLinkState : Type 0 where
  pub up : Bool
  pub speed_mbps : ℕ
  pub duplex : ℕ
