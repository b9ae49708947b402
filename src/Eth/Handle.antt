-- ===== src/Eth/Handle.antt =====
-- Handles and addresses in src/device/stm32h755/eth.c.
use device_abstraction_stack.Base.{
  ℕ, zero, suc, ◌+◌, Bool, false, bit_and, bit_or, has_bits, ◌==◌, ◌!=◌, if◌then◌else◌, u8,
}
use device_abstraction_stack.Api.Eth.{das_eth_invalid, das_eth_mac_address_size}
use device_abstraction_stack.Machine.Platform.{Platform}

abbrev pub eth_handle_base : ℕ
eth_handle_base = 0x4554_4800

abbrev pub eth_handle_mask : ℕ
eth_handle_mask = 0xffff_ff00

abbrev pub eth_instance_mask : ℕ
eth_instance_mask = 0xff

-- `STM32H755_ETH1`
abbrev pub eth1 : ℕ
eth1 = 1

-- The loop of `mac_address_valid` at `i`, with `left` bytes to go.
unfoldable pub combined_from : ℕ → ℕ → (ℕ → ℕ) → ℕ → ℕ
combined_from zero i mac combined = combined
combined_from (suc left) i mac combined =
    combined_from left (i + 1) mac (u8 (bit_or combined (mac i)))

unfoldable pub mac_address_valid : (ℕ → ℕ) → Bool
mac_address_valid mac =
    if has_bits (mac 0) 0x1 then false else combined_from das_eth_mac_address_size 0 mac 0 != 0

unfoldable pub instance_from_handle : ℕ → ℕ
instance_from_handle eth =
    if bit_and eth eth_handle_mask != eth_handle_base then 0 else bit_and eth eth_instance_mask

unfoldable pub stm32h755_eth_handle : ℕ → ℕ
stm32h755_eth_handle instance_ =
    if instance_ != eth1 then das_eth_invalid else bit_or eth_handle_base instance_

unfoldable pub das_eth_is_valid : ℕ → Bool
das_eth_is_valid eth = instance_from_handle eth == eth1

module _ ⦃p : Platform⦄ where
  unfoldable pub stm32h755_eth_current_core_supported : Bool
  stm32h755_eth_current_core_supported = p.cmsis.core.core_cm7
