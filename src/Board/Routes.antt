-- ===== src/Board/Routes.antt =====
-- The initialisations of src/board/nucleo_h755zi_q/resources.c. The Boolean says whether the output
-- pointer is given; it receives the handle of a call that succeeds, and the invalid handle of one that
-- fails after the checks of its arguments.
use device_abstraction_stack.Base.{ℕ, Bool, true, not, ◌||◌, Option, none, some}
use device_abstraction_stack.Api.Uart.{DasUartConfig}
use device_abstraction_stack.Api.Timer.{DasPwmConfig}
use device_abstraction_stack.Api.I2c.{DasI2cConfig}
use device_abstraction_stack.Api.Spi.{DasSpiConfig}
use device_abstraction_stack.Machine.Platform.{Platform}
use device_abstraction_stack.Machine.Monad.{
  M, invalid_argument, unsupported, return, fail, fail_if, ◌>>◌,
}
use device_abstraction_stack.Gpio.Setup.{das_gpio_configure, das_gpio_output_init}
use device_abstraction_stack.Gpio.Level.{das_gpio_write}
use device_abstraction_stack.Uart.Setup.{stm32h755_uart_handle, das_uart_is_valid, das_uart_init}
use device_abstraction_stack.Timer.Pwm.{
  pwm_tim1_ch4, stm32h755_pwm_handle, das_pwm_is_valid, das_pwm_init,
}
use device_abstraction_stack.I2c.Setup.{i2c1, stm32h755_i2c_handle, das_i2c_is_valid, das_i2c_init}
use device_abstraction_stack.Spi.Setup.{spi1, stm32h755_spi_handle, das_spi_is_valid, das_spi_init}
use device_abstraction_stack.Board.Pins.{
  uart_valid, pwm_resource_valid, i2c_valid, spi_valid, uart_pins, uart_instances, pwm_pin,
  i2c_pins, spi_pins, uart_tx_config, uart_rx_config, pwm_pin_config, i2c_pin_config,
  spi_clock_config, spi_data_config,
}

module _ ⦃p : Platform⦄ where
  unfoldable pub uart_route : ℕ → DasUartConfig → M ℕ
  uart_route resource config = do
    das_gpio_configure (uart_pins resource).tx (some uart_tx_config)
    das_gpio_configure (uart_pins resource).rx (some uart_rx_config)
    let resolved = stm32h755_uart_handle (uart_instances resource)
    fail_if (not (das_uart_is_valid resolved)) unsupported
    das_uart_init resolved (some config)
    return resolved

  unfoldable pub das_board_uart_init : ℕ → Option DasUartConfig → Bool → M ℕ
  das_board_uart_init resource config uart = do
    fail_if (not (uart_valid resource) || not uart) invalid_argument
    elim config [ none ↦ fail invalid_argument | some c ↦ uart_route resource c ]

  unfoldable pub pwm_route : DasPwmConfig → M ℕ
  pwm_route config = do
    das_gpio_configure pwm_pin (some pwm_pin_config)
    let resolved = stm32h755_pwm_handle pwm_tim1_ch4
    fail_if (not (das_pwm_is_valid resolved)) unsupported
    das_pwm_init resolved (some config)
    return resolved

  unfoldable pub das_board_pwm_init : ℕ → Option DasPwmConfig → Bool → M ℕ
  das_board_pwm_init resource config pwm = do
    fail_if (not (pwm_resource_valid resource) || not pwm) invalid_argument
    elim config [ none ↦ fail invalid_argument | some c ↦ pwm_route c ]

  unfoldable pub i2c_route : DasI2cConfig → M ℕ
  i2c_route config = do
    das_gpio_configure i2c_pins.scl (some i2c_pin_config)
    das_gpio_configure i2c_pins.sda (some i2c_pin_config)
    let resolved = stm32h755_i2c_handle i2c1
    fail_if (not (das_i2c_is_valid resolved)) unsupported
    das_i2c_init resolved (some config)
    return resolved

  unfoldable pub das_board_i2c_init : ℕ → Option DasI2cConfig → Bool → M ℕ
  das_board_i2c_init resource config i2c = do
    fail_if (not (i2c_valid resource) || not i2c) invalid_argument
    elim config [ none ↦ fail invalid_argument | some c ↦ i2c_route c ]

  -- The chip select is driven high before the bus lines are configured.
  unfoldable pub spi_route : DasSpiConfig → M ℕ
  spi_route config = do
    das_gpio_output_init spi_pins.cs true
    das_gpio_configure spi_pins.sck (some (spi_clock_config config))
    das_gpio_configure spi_pins.mosi (some spi_data_config)
    das_gpio_configure spi_pins.miso (some spi_data_config)
    let resolved = stm32h755_spi_handle spi1
    fail_if (not (das_spi_is_valid resolved)) unsupported
    das_spi_init resolved (some config)
    return resolved

  unfoldable pub das_board_spi_init : ℕ → Option DasSpiConfig → Bool → M ℕ
  das_board_spi_init resource config spi = do
    fail_if (not (spi_valid resource) || not spi) invalid_argument
    elim config [ none ↦ fail invalid_argument | some c ↦ spi_route c ]

  unfoldable pub das_board_spi_chip_select : ℕ → Bool → M (Unit {0})
  das_board_spi_chip_select resource selected = do
    fail_if (not (spi_valid resource)) invalid_argument
    das_gpio_write spi_pins.cs (not selected)
