-- ===== src/Board/Leds.antt =====
-- The LEDs, src/board/nucleo_h755zi_q/board.c.
use device_abstraction_stack.Base.{ℕ, zero, suc, ◌+◌, Bool, false, not, ltb, ◌==◌, if◌then◌else◌}
use device_abstraction_stack.Api.Gpio.{DasGpioPin}
use device_abstraction_stack.Api.Board.{das_board_led_count}
use device_abstraction_stack.Machine.Platform.{Platform}
use device_abstraction_stack.Machine.Monad.{M, invalid_argument, return, fail_if, ◌>>◌}
use device_abstraction_stack.Gpio.Setup.{das_gpio_output_init}
use device_abstraction_stack.Gpio.Level.{das_gpio_write, das_gpio_toggle, das_gpio_read_output}

unfoldable pub led_valid : ℕ → Bool
led_valid led = ltb led das_board_led_count

-- `LED_PINS`: PB0, PE1 and PB14.
unfoldable pub led_pins : ℕ → DasGpioPin
led_pins led =
    if led == 0
    then record { port = 1; pin = 0 }
    else if led == 1
    then record { port = 4; pin = 1 }
    else record { port = 1; pin = 14 }

-- Port A, pin 255.
abbrev pub invalid_pin : DasGpioPin
invalid_pin = record { port = 0; pin = 0xff }

unfoldable pub das_board_led_pin : ℕ → DasGpioPin
das_board_led_pin led = if not (led_valid led) then invalid_pin else led_pins led

module _ ⦃p : Platform⦄ where
  unfoldable pub das_board_led_init : ℕ → Bool → M (Unit {0})
  das_board_led_init led initially_on = do
    fail_if (not (led_valid led)) invalid_argument
    das_gpio_output_init (led_pins led) initially_on

  -- The loop of `das_board_led_init_all` at `led`, with `left` LEDs to go.
  unfoldable pub init_leds : ℕ → ℕ → Bool → M (Unit {0})
  init_leds zero led initially_on = return tt
  init_leds (suc left) led initially_on = do
    das_board_led_init led initially_on
    init_leds left (led + 1) initially_on

  unfoldable pub das_board_led_init_all : Bool → M (Unit {0})
  das_board_led_init_all initially_on = init_leds das_board_led_count 0 initially_on

  unfoldable pub das_board_led_set : ℕ → Bool → M (Unit {0})
  das_board_led_set led on = do
    fail_if (not (led_valid led)) invalid_argument
    das_gpio_write (led_pins led) on

  unfoldable pub das_board_led_toggle : ℕ → M (Unit {0})
  das_board_led_toggle led = do
    fail_if (not (led_valid led)) invalid_argument
    das_gpio_toggle (led_pins led)

  unfoldable pub das_board_led_is_on : ℕ → M Bool
  das_board_led_is_on led =
      if led_valid led then das_gpio_read_output (led_pins led) else return false
