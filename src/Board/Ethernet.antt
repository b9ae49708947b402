-- ===== src/Board/Ethernet.antt =====
-- The Ethernet route, src/board/nucleo_h755zi_q/ethernet.c.
use device_abstraction_stack.Base.{
  ℕ, Bool, false, not, ◌||◌, Option, none, some, List, [], ◌∷◌, ltb,
}
use device_abstraction_stack.Api.Gpio.{
  DasGpioPin, DasGpioConfig, das_gpio_mode_alternate, das_gpio_pull_none, das_gpio_output_push_pull,
  das_gpio_speed_very_high,
}
use device_abstraction_stack.Api.Eth.{DasEthConfig}
use device_abstraction_stack.Machine.Platform.{Platform}
use device_abstraction_stack.Machine.Monad.{
  M, invalid_argument, unsupported, return, fail, fail_if, ◌>>◌,
}
use device_abstraction_stack.Gpio.Setup.{das_gpio_configure}
use device_abstraction_stack.Eth.Handle.{
  eth1, stm32h755_eth_handle, das_eth_is_valid, stm32h755_eth_current_core_supported,
}
use device_abstraction_stack.Eth.Driver.{das_eth_init}
use device_abstraction_stack.Board.Pins.{pin_at}

-- `DAS_BOARD_ETH_COUNT`
abbrev pub das_board_eth_count : ℕ
das_board_eth_count = 1

unfoldable pub eth_resource_valid : ℕ → Bool
eth_resource_valid resource = ltb resource das_board_eth_count

-- `ETH_RMII_PINS`: PA1, PA2, PC1, PA7, PC4, PC5, PG11, PG13 and PB13.
abbrev pub eth_rmii_pins : List DasGpioPin
eth_rmii_pins =
    pin_at 0 1
    ∷ pin_at 0 2
    ∷ pin_at 2 1
    ∷ pin_at 0 7
    ∷ pin_at 2 4
    ∷ pin_at 2 5
    ∷ pin_at 6 11
    ∷ pin_at 6 13
    ∷ pin_at 1 13
    ∷ []

abbrev pub rmii_pin_config : DasGpioConfig
rmii_pin_config = record {
  mode = das_gpio_mode_alternate;
  pull = das_gpio_pull_none;
  output_type = das_gpio_output_push_pull;
  speed = das_gpio_speed_very_high;
  alternate = 11;
  initial_high = false;
}

module _ ⦃p : Platform⦄ where
  -- The loop of `configure_rmii_pins`.
  unfoldable pub configure_pins : List DasGpioPin → M (Unit {0})
  configure_pins [] = return tt
  configure_pins (pin ∷ pins) = do
    das_gpio_configure pin (some rmii_pin_config)
    configure_pins pins

  unfoldable pub configure_rmii_pins : M (Unit {0})
  configure_rmii_pins = configure_pins eth_rmii_pins

  unfoldable pub eth_route : DasEthConfig → M ℕ
  eth_route config = do
    fail_if (not stm32h755_eth_current_core_supported) unsupported
    configure_rmii_pins
    let resolved = stm32h755_eth_handle eth1
    fail_if (not (das_eth_is_valid resolved)) unsupported
    das_eth_init resolved (some config)
    return resolved

  -- The Boolean says whether `eth` is given.
  unfoldable pub das_board_eth_init : ℕ → Option DasEthConfig → Bool → M ℕ
  das_board_eth_init resource config eth = do
    fail_if (not (eth_resource_valid resource) || not eth) invalid_argument
    elim config [ none ↦ fail invalid_argument | some c ↦ eth_route c ]
