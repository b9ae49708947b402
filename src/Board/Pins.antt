-- ===== src/Board/Pins.antt =====
-- The tables of src/board/nucleo_h755zi_q/resources.c.
use device_abstraction_stack.Base.{ℕ, Bool, true, false, not, ltb, ◌==◌, ◌||◌, if◌then◌else◌}
use device_abstraction_stack.Api.Gpio.{
  DasGpioPin, DasGpioConfig, das_gpio_mode_alternate, das_gpio_pull_none, das_gpio_pull_up,
  das_gpio_output_push_pull, das_gpio_output_open_drain,
}
use device_abstraction_stack.Api.Spi.{DasSpiConfig, das_spi_mode_2, das_spi_mode_3}
use device_abstraction_stack.Api.Board.{
  DasBoardUartPins, DasBoardI2cPins, DasBoardSpiPins, das_board_button_count,
  das_board_uart_stlink_vcp, das_board_uart_count, das_board_pwm_count, das_board_i2c_count,
  das_board_spi_count, das_board_gpio_arduino_d3, das_board_gpio_count,
}
use device_abstraction_stack.Machine.Platform.{Platform}
use device_abstraction_stack.Machine.Monad.{M, invalid_argument, return, fail_if, ◌>>◌}
use device_abstraction_stack.Uart.Setup.{usart1, usart3}
use device_abstraction_stack.Board.Leds.{invalid_pin}

abbrev pub uart_af : ℕ
uart_af = 7

abbrev pub pwm_af : ℕ
pwm_af = 1

abbrev pub spi_af : ℕ
spi_af = 5

abbrev pub i2c_af : ℕ
i2c_af = 4

unfoldable pub button_valid : ℕ → Bool
button_valid button = ltb button das_board_button_count

unfoldable pub uart_valid : ℕ → Bool
uart_valid resource = ltb resource das_board_uart_count

unfoldable pub pwm_resource_valid : ℕ → Bool
pwm_resource_valid resource = ltb resource das_board_pwm_count

unfoldable pub i2c_valid : ℕ → Bool
i2c_valid resource = ltb resource das_board_i2c_count

unfoldable pub spi_valid : ℕ → Bool
spi_valid resource = ltb resource das_board_spi_count

unfoldable pub gpio_resource_valid : ℕ → Bool
gpio_resource_valid resource = ltb resource das_board_gpio_count

abbrev pub pin_at : ℕ → ℕ → DasGpioPin
pin_at port pin = record { port = port; pin = pin }

-- `BUTTON_PINS`: PC13.
abbrev pub button_pin : DasGpioPin
button_pin = pin_at 2 13

-- `UART_PINS`: PD8 and PD9, PB6 and PB7.
unfoldable pub uart_pins : ℕ → DasBoardUartPins
uart_pins resource =
    if resource == das_board_uart_stlink_vcp
    then record { tx = pin_at 3 8; rx = pin_at 3 9 }
    else record { tx = pin_at 1 6; rx = pin_at 1 7 }

-- `UART_INSTANCES`
unfoldable pub uart_instances : ℕ → ℕ
uart_instances resource = if resource == das_board_uart_stlink_vcp then usart3 else usart1

-- `PWM_PINS`: PE14.
abbrev pub pwm_pin : DasGpioPin
pwm_pin = pin_at 4 14

-- `I2C_PINS`: PB8 and PB9.
abbrev pub i2c_pins : DasBoardI2cPins
i2c_pins = record { scl = pin_at 1 8; sda = pin_at 1 9 }

-- `SPI_PINS`: PA5, PA6, PB5 and PD14.
abbrev pub spi_pins : DasBoardSpiPins
spi_pins = record { sck = pin_at 0 5; miso = pin_at 0 6; mosi = pin_at 1 5; cs = pin_at 3 14 }

-- `GPIO_RESOURCE_PINS`: PE13 and PE14.
unfoldable pub gpio_resource_pins : ℕ → DasGpioPin
gpio_resource_pins resource =
    if resource == das_board_gpio_arduino_d3 then pin_at 4 13 else pin_at 4 14

-- `DAS_GPIO_SPEED_HIGH`
abbrev pub das_gpio_speed_high : ℕ
das_gpio_speed_high = 2

-- The configurations of the pins of a route: the alternate function, and what else differs.
abbrev pub alternate_config : ℕ → ℕ → ℕ → Bool → DasGpioConfig
alternate_config pull output_type alternate initial_high = record {
  mode = das_gpio_mode_alternate;
  pull = pull;
  output_type = output_type;
  speed = das_gpio_speed_high;
  alternate = alternate;
  initial_high = initial_high;
}

abbrev pub uart_tx_config : DasGpioConfig
uart_tx_config = alternate_config das_gpio_pull_none das_gpio_output_push_pull uart_af true

abbrev pub uart_rx_config : DasGpioConfig
uart_rx_config = alternate_config das_gpio_pull_up das_gpio_output_push_pull uart_af true

abbrev pub pwm_pin_config : DasGpioConfig
pwm_pin_config = alternate_config das_gpio_pull_none das_gpio_output_push_pull pwm_af false

abbrev pub i2c_pin_config : DasGpioConfig
i2c_pin_config = alternate_config das_gpio_pull_up das_gpio_output_open_drain i2c_af true

-- The clock line idles at the polarity of the mode.
unfoldable pub spi_clock_config : DasSpiConfig → DasGpioConfig
spi_clock_config config =
    alternate_config das_gpio_pull_none das_gpio_output_push_pull spi_af
      (config.mode == das_spi_mode_2 || config.mode == das_spi_mode_3)

abbrev pub spi_data_config : DasGpioConfig
spi_data_config = alternate_config das_gpio_pull_none das_gpio_output_push_pull spi_af false

unfoldable pub das_board_pwm_pin : ℕ → DasGpioPin
das_board_pwm_pin resource = if pwm_resource_valid resource then pwm_pin else invalid_pin

unfoldable pub das_board_gpio_pin : ℕ → DasGpioPin
das_board_gpio_pin resource =
    if gpio_resource_valid resource then gpio_resource_pins resource else invalid_pin

unfoldable pub das_board_button_pin : ℕ → DasGpioPin
das_board_button_pin button = if button_valid button then button_pin else invalid_pin

module _ ⦃p : Platform⦄ where
  unfoldable pub das_board_uart_get_pins : ℕ → Bool → M DasBoardUartPins
  das_board_uart_get_pins resource pins = do
    fail_if (not (uart_valid resource) || not pins) invalid_argument
    return (uart_pins resource)

  unfoldable pub das_board_i2c_get_pins : ℕ → Bool → M DasBoardI2cPins
  das_board_i2c_get_pins resource pins = do
    fail_if (not (i2c_valid resource) || not pins) invalid_argument
    return i2c_pins

  unfoldable pub das_board_spi_get_pins : ℕ → Bool → M DasBoardSpiPins
  das_board_spi_get_pins resource pins = do
    fail_if (not (spi_valid resource) || not pins) invalid_argument
    return spi_pins
