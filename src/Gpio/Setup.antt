-- ===== src/Gpio/Setup.antt =====
-- The configuration of pins in src/device/stm32h755/gpio.c.
use device_abstraction_stack.Base.{
  ℕ, ◌*◌, ◌/◌, ◌%◌, Bool, false, not, ◌||◌, Option, none, some, bit_or, bit_clear, ◌==◌,
  if◌then◌else◌, ◌<<<◌,
}
use device_abstraction_stack.Api.Gpio.{
  DasGpioPin, DasGpioConfig, das_gpio_mode_input, das_gpio_mode_output, das_gpio_mode_alternate,
  das_gpio_pull_none, das_gpio_output_push_pull, das_gpio_output_open_drain, das_gpio_speed_low,
}
use device_abstraction_stack.Machine.Reg.{Reg, Barrier}
use device_abstraction_stack.Machine.Platform.{Platform}
use device_abstraction_stack.Machine.Monad.{
  M, invalid_argument, return, fail, fail_if, ◌>>=◌, ◌>>◌, read_reg, write_reg, modify_reg, barrier,
}
use device_abstraction_stack.Gpio.Pins.{resolve_pin, config_valid, gpio_clock_mask}

-- `(reg & ~(ones << shift)) | (value << shift)`
unfoldable pub with_field : ℕ → ℕ → ℕ → ℕ → ℕ
with_field ones shift value reg = bit_or (bit_clear reg (ones <<< shift)) (value <<< shift)

-- The word of BSRR that sets or resets a pin.
unfoldable pub bsrr_word : ℕ → Bool → ℕ
bsrr_word pin high = let bit = 1 <<< pin in if high then bit else bit <<< 16

-- `reg |= bit` or `reg &= ~bit`
unfoldable pub with_bit : ℕ → Bool → ℕ → ℕ
with_bit pin set reg = let bit = 1 <<< pin in if set then bit_or reg bit else bit_clear reg bit

module _ ⦃p : Platform⦄ where
  unfoldable pub enable_port : ℕ → M (Unit {0})
  enable_port port = do
    modify_reg Reg.rcc_ahb4enr (λ v. bit_or v (gpio_clock_mask port))
    unused ← read_reg Reg.rcc_ahb4enr
    barrier Barrier.dsb

  unfoldable pub write_latch : DasGpioPin → DasGpioConfig → M (Unit {0})
  write_latch pin config =
      if config.mode == das_gpio_mode_output || config.mode == das_gpio_mode_alternate
      then write_reg (Reg.gpio_bsrr pin.port) (bsrr_word pin.pin config.initial_high)
      else return tt

  unfoldable pub select_alternate : DasGpioPin → DasGpioConfig → M (Unit {0})
  select_alternate pin config =
      if config.mode == das_gpio_mode_alternate
      then modify_reg (Reg.gpio_afr pin.port (pin.pin / 8))
          (with_field 0xf (pin.pin % 8 * 4) config.alternate)
      else return tt

  -- The registers of the port, in their order.
  unfoldable pub program_pin : DasGpioPin → DasGpioConfig → M (Unit {0})
  program_pin pin config = do
    let shift = pin.pin * 2
    write_latch pin config
    modify_reg (Reg.gpio_otyper pin.port)
        (with_bit pin.pin (config.output_type == das_gpio_output_open_drain))
    modify_reg (Reg.gpio_ospeedr pin.port) (with_field 3 shift config.speed)
    modify_reg (Reg.gpio_pupdr pin.port) (with_field 3 shift config.pull)
    select_alternate pin config
    modify_reg (Reg.gpio_moder pin.port) (with_field 3 shift config.mode)
    barrier Barrier.dsb

  unfoldable pub configure_checked : DasGpioPin → DasGpioConfig → M (Unit {0})
  configure_checked pin config = do enable_port pin.port; program_pin pin config

  unfoldable pub das_gpio_configure : DasGpioPin → Option DasGpioConfig → M (Unit {0})
  das_gpio_configure pin config = do
    fail_if (not (resolve_pin pin) || gpio_clock_mask pin.port == 0 || not (config_valid config))
        invalid_argument
    elim config [ none ↦ fail invalid_argument | some c ↦ configure_checked pin c ]

  unfoldable pub das_gpio_input_init : DasGpioPin → ℕ → M (Unit {0})
  das_gpio_input_init pin pull = das_gpio_configure pin (
      some (record {
        mode = das_gpio_mode_input;
        pull = pull;
        output_type = das_gpio_output_push_pull;
        speed = das_gpio_speed_low;
        alternate = 0;
        initial_high = false;
      }))

  unfoldable pub das_gpio_output_init_ex : DasGpioPin → ℕ → ℕ → ℕ → Bool → M (Unit {0})
  das_gpio_output_init_ex pin output_type pull speed initial_high = das_gpio_configure pin (
      some (record {
        mode = das_gpio_mode_output;
        pull = pull;
        output_type = output_type;
        speed = speed;
        alternate = 0;
        initial_high = initial_high;
      }))

  unfoldable pub das_gpio_output_init : DasGpioPin → Bool → M (Unit {0})
  das_gpio_output_init pin initial_high =
      das_gpio_output_init_ex pin das_gpio_output_push_pull das_gpio_pull_none das_gpio_speed_low
        initial_high
