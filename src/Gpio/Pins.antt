-- ===== src/Gpio/Pins.antt =====
-- The tables and the checks of src/device/stm32h755/gpio.c. A port is its index from port A.
use device_abstraction_stack.Base.{
  ℕ, Bool, false, not, ◌&&◌, ◌||◌, Option, none, some, uint32_max, ltb, leb, ◌==◌, ◌!=◌,
  if◌then◌else◌,
}
use device_abstraction_stack.Api.Gpio.{
  DasGpioPin, DasGpioConfig, das_gpio_port_k, das_gpio_mode_alternate, das_gpio_mode_analog,
  das_gpio_pull_down, das_gpio_output_push_pull, das_gpio_output_open_drain,
  das_gpio_speed_very_high,
}
use device_abstraction_stack.Machine.Platform.{Platform}

-- Whether `gpio_port` finds a port.
unfoldable pub gpio_port : ℕ → Bool
gpio_port port = leb port das_gpio_port_k

unfoldable pub gpio_port_index : ℕ → ℕ
gpio_port_index port = if gpio_port port then port else uint32_max

-- Whether `resolve_pin` returns `DAS_OK`; `out_port` is the address of a local and never null.
unfoldable pub resolve_pin : DasGpioPin → Bool
resolve_pin pin = gpio_port pin.port && ltb pin.pin 16

unfoldable pub mode_valid : ℕ → Bool
mode_valid mode = leb mode das_gpio_mode_analog

unfoldable pub pull_valid : ℕ → Bool
pull_valid pull = leb pull das_gpio_pull_down

unfoldable pub output_type_valid : ℕ → Bool
output_type_valid output_type =
    output_type == das_gpio_output_push_pull || output_type == das_gpio_output_open_drain

unfoldable pub speed_valid : ℕ → Bool
speed_valid speed = leb speed das_gpio_speed_very_high

unfoldable pub config_valid : Option DasGpioConfig → Bool
config_valid none = false
config_valid (some config) =
    if not (mode_valid config.mode)
      || not (pull_valid config.pull)
      || not (output_type_valid config.output_type)
      || not (speed_valid config.speed)
    then false
    else config.mode != das_gpio_mode_alternate || ltb config.alternate 16

module _ ⦃p : Platform⦄ where
  unfoldable pub gpio_clock_mask : ℕ → ℕ
  gpio_clock_mask port = if gpio_port port then p.cmsis.rcc.gpio_en port else 0
