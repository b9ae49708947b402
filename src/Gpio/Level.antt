-- ===== src/Gpio/Level.antt =====
-- The levels of pins in src/device/stm32h755/gpio.c.
use device_abstraction_stack.Base.{Bool, false, not, has_bits, if◌then◌else◌, ◌<<<◌}
use device_abstraction_stack.Api.Gpio.{DasGpioPin}
use device_abstraction_stack.Machine.Reg.{Reg}
use device_abstraction_stack.Machine.Platform.{Platform}
use device_abstraction_stack.Machine.Monad.{
  M, invalid_argument, return, fail_if, ◌>>=◌, ◌>>◌, read_reg, write_reg,
}
use device_abstraction_stack.Gpio.Pins.{resolve_pin}
use device_abstraction_stack.Gpio.Setup.{bsrr_word}

module _ ⦃p : Platform⦄ where
  unfoldable pub das_gpio_write : DasGpioPin → Bool → M (Unit {0})
  das_gpio_write pin high = do
    fail_if (not (resolve_pin pin)) invalid_argument
    write_reg (Reg.gpio_bsrr pin.port) (bsrr_word pin.pin high)

  unfoldable pub das_gpio_toggle : DasGpioPin → M (Unit {0})
  das_gpio_toggle pin = do
    fail_if (not (resolve_pin pin)) invalid_argument
    odr ← read_reg (Reg.gpio_odr pin.port)
    write_reg (Reg.gpio_bsrr pin.port) (bsrr_word pin.pin (not (has_bits odr (1 <<< pin.pin))))

  unfoldable pub das_gpio_read_output : DasGpioPin → M Bool
  das_gpio_read_output pin =
      if resolve_pin pin
      then (do odr ← read_reg (Reg.gpio_odr pin.port); return (has_bits odr (1 <<< pin.pin)))
      else return false

  unfoldable pub das_gpio_read_input : DasGpioPin → M Bool
  das_gpio_read_input pin =
      if resolve_pin pin
      then (do idr ← read_reg (Reg.gpio_idr pin.port); return (has_bits idr (1 <<< pin.pin)))
      else return false
