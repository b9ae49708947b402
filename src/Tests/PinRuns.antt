-- ===== src/Tests/PinRuns.antt =====
-- Pins and clock profiles at concrete numbers.
use device_abstraction_stack.Base.{◌≡◌, refl, arith, true, false, not, some, ◌==◌}
use device_abstraction_stack.Base.Fields.{bit}
use device_abstraction_stack.Api.Gpio.{DasGpioPin, DasGpioConfig, das_gpio_mode_alternate}
use device_abstraction_stack.Machine.World.{World}
use device_abstraction_stack.Machine.Monad.{ok}
use device_abstraction_stack.Clock.Dividers.{
  core_ahb_divider_bits, core_ahb_divider_from_bits, apb_divider_bits, apb_divider_from_bits,
}
use device_abstraction_stack.Clock.Tree.{
  stm32h755_clock_get_frequencies, system_frequency_hz, hsi_frequency_hz,
}
use device_abstraction_stack.Clock.Config.{
  is_none, validate_managed_config, derive_frequencies, exceeds_envelope, config_source_hz,
  config_system_hz, pll_invalid, dividers_invalid, divided,
}
use device_abstraction_stack.Clock.Apply.{
  stm32h755_clock_apply, apply_checked, switch_to_hsi, start_hsi, configure_envelope,
  configure_bus_dividers, configure_source, configure_pll1, switch_to_target, differs,
}
use device_abstraction_stack.Machine.Poll.{wait_mask, wait_field}
use device_abstraction_stack.Power.{stm32h755_power_configure_direct_smps}
use device_abstraction_stack.Gpio.Pins.{
  resolve_pin, config_valid, gpio_clock_mask, gpio_port, mode_valid, pull_valid, speed_valid,
  output_type_valid,
}
use device_abstraction_stack.Gpio.Setup.{das_gpio_configure}
use device_abstraction_stack.Gpio.Storage.{Setting}
use device_abstraction_stack.Gpio.Isolated.{das_gpio_configure-bits}
use device_abstraction_stack.Board.Profiles.{
  build_profile, das_clock_frequency_supported, apply_profile, das_clock_set_frequency,
}
use device_abstraction_stack.Board.Supported.{
  supported-build_profile, build_profile-Profiled, Profiled, Reached,
  das_clock_set_frequency-Reached,
}
use device_abstraction_stack.Tests.Board.{board, fresh}
use device_abstraction_stack.Tests.Port.{ports, storage, unclocked}

-- PB6 as the transmitter of USART1.
abbrev pb6 : DasGpioPin
pb6 = record { port = 1; pin = 6 }

abbrev transmitter : DasGpioConfig
transmitter = record {
  mode = das_gpio_mode_alternate;
  pull = 0;
  output_type = 0;
  speed = 2;
  alternate = 7;
  initial_high = true;
}

pb6_resolved : resolve_pin pb6 ≡ true
unfolding resolve_pin gpio_port
pb6_resolved = refl

pb6_clock : (gpio_clock_mask ⦃p = ports⦄ pb6.port == 0) ≡ false
unfolding gpio_clock_mask gpio_port
pb6_clock = refl

transmitter_valid : config_valid (some transmitter) ≡ true
unfolding config_valid mode_valid pull_valid speed_valid output_type_valid
transmitter_valid = refl

das_gpio_configure-bits_example :
    (u : World ports) × (das_gpio_configure ⦃p = ports⦄ pb6 (some transmitter) unclocked
      ≡ (ok tt, u))
    × (bit (u.hw.cells Setting.moder 1) 12 ≡ 0)
    × (bit (u.hw.cells Setting.ospeedr 1) 12 ≡ 0)
    × (bit (u.hw.cells Setting.pupdr 1) 12 ≡ 0)
    × (bit (u.hw.cells Setting.otyper 1) 12 ≡ 1)
    × (bit (u.hw.cells (Setting.afr 0) 1) 12 ≡ 1)
das_gpio_configure-bits_example =
    das_gpio_configure-bits ⦃p = ports⦄ storage pb6 transmitter unclocked 12 pb6_resolved pb6_clock
      transmitter_valid (omega arith)

supported-build_profile_example :
    das_clock_frequency_supported 300_000_000 ≡ not (is_none (build_profile 300_000_000))
supported-build_profile_example = supported-build_profile 300_000_000

build_profile-Profiled_example : Profiled 300_000_000 (build_profile 300_000_000)
build_profile-Profiled_example = build_profile-Profiled 300_000_000

reset_profile : (das_clock_set_frequency ⦃p = board⦄ 64_000_000 fresh).0 ≡ ok tt
unfolding das_clock_set_frequency build_profile apply_profile stm32h755_power_configure_direct_smps
    stm32h755_clock_apply apply_checked switch_to_hsi start_hsi configure_envelope
    configure_bus_dividers configure_source configure_pll1 switch_to_target differs wait_mask
    wait_field stm32h755_clock_get_frequencies system_frequency_hz hsi_frequency_hz
    core_ahb_divider_from_bits apb_divider_from_bits validate_managed_config derive_frequencies
    exceeds_envelope config_source_hz config_system_hz pll_invalid dividers_invalid divided
    core_ahb_divider_bits apb_divider_bits
reset_profile = refl

das_clock_set_frequency-Reached_example :
    (das_clock_frequency_supported 64_000_000 ≡ true)
    × Reached ⦃p = board⦄ 64_000_000 (das_clock_set_frequency ⦃p = board⦄ 64_000_000 fresh)
das_clock_set_frequency-Reached_example =
    das_clock_set_frequency-Reached ⦃p = board⦄ 64_000_000 fresh reset_profile
