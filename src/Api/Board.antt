-- ===== src/Api/Board.antt =====
-- include/das/board.h and include/das/board_resources.h. The enumerations are their numbers.
use device_abstraction_stack.Base.{ℕ}
use device_abstraction_stack.Api.Gpio.{DasGpioPin}

abbrev pub das_board_led_count : ℕ
das_board_led_count = 3

abbrev pub das_board_button_count : ℕ
das_board_button_count = 1

abbrev pub das_board_button_event_press : ℕ
das_board_button_event_press = 0

abbrev pub das_board_button_event_release : ℕ
das_board_button_event_release = 1

abbrev pub das_board_button_event_both : ℕ
das_board_button_event_both = 2

abbrev pub das_board_uart_stlink_vcp : ℕ
das_board_uart_stlink_vcp = 0

abbrev pub das_board_uart_count : ℕ
das_board_uart_count = 2

abbrev pub das_board_pwm_count : ℕ
das_board_pwm_count = 1

abbrev pub das_board_i2c_count : ℕ
das_board_i2c_count = 1

abbrev pub das_board_spi_count : ℕ
das_board_spi_count = 1

abbrev pub das_board_gpio_arduino_d3 : ℕ
das_board_gpio_arduino_d3 = 0

abbrev pub das_board_gpio_count : ℕ
das_board_gpio_count = 2

-- `das_board_uart_pins_t`
pub record DasBoardUartPins : Type 0 where
  pub tx : DasGpioPin
  pub rx : DasGpioPin

-- `das_board_i2c_pins_t`
pub record DasBoardI2cPins : Type 0 where
  pub scl : DasGpioPin
  pub sda : DasGpioPin

-- `das_board_spi_pins_t`
pub record DasBoardSpiPins : Type 0 where
  pub sck : DasGpioPin
  pub miso : DasGpioPin
  pub mosi : DasGpioPin
  pub cs : DasGpioPin
