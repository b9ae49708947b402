-- ===== src/Gpio/Interrupt.antt =====
-- The interrupt lines of pins in src/device/stm32h755/gpio.c and gpio_irq.c.
use device_abstraction_stack.Base.{
  ℕ, ◌*◌, ◌/◌, ◌%◌, Bool, false, not, ◌&&◌, ◌||◌, bit_or, has_bits, uint32_max, ltb, leb, ◌==◌,
  if◌then◌else◌, ◌<<<◌,
}
use device_abstraction_stack.Api.Gpio.{
  DasGpioPin, das_gpio_port_k, das_gpio_interrupt_rising, das_gpio_interrupt_falling,
  das_gpio_interrupt_both,
}
use device_abstraction_stack.Machine.Reg.{Reg, Barrier}
use device_abstraction_stack.Machine.Platform.{Platform}
use device_abstraction_stack.Machine.Monad.{
  M, invalid_argument, return, fail_if, ◌>>=◌, ◌>>◌, read_reg, write_reg, modify_reg, barrier,
}
use device_abstraction_stack.Gpio.Pins.{resolve_pin, gpio_port_index}
use device_abstraction_stack.Gpio.Setup.{with_field, with_bit}

unfoldable pub edge_valid : ℕ → Bool
edge_valid edge =
    edge == das_gpio_interrupt_rising
    || edge == das_gpio_interrupt_falling
    || edge == das_gpio_interrupt_both

-- `gpio_pin_valid` of gpio_irq.c.
unfoldable pub gpio_pin_valid : DasGpioPin → Bool
gpio_pin_valid pin = leb pin.port das_gpio_port_k && ltb pin.pin 16

module _ ⦃p : Platform⦄ where
  unfoldable pub enable_syscfg : M (Unit {0})
  enable_syscfg = do
    modify_reg Reg.core_apb4enr (λ v. bit_or v p.cmsis.rcc.syscfgen)
    unused ← read_reg Reg.core_apb4enr
    barrier Barrier.dsb

  -- The routing of the line and its edges; the line is masked and its pending state cleared last.
  unfoldable pub program_line : ℕ → ℕ → ℕ → M (Unit {0})
  program_line port_index pin edge = do
    modify_reg (Reg.syscfg_exticr (pin / 4)) (with_field 0xf (pin % 4 * 4) port_index)
    modify_reg Reg.exti_rtsr1 (with_bit pin (has_bits edge das_gpio_interrupt_rising))
    modify_reg Reg.exti_ftsr1 (with_bit pin (has_bits edge das_gpio_interrupt_falling))
    modify_reg Reg.exti_core_imr1 (with_bit pin false)
    write_reg Reg.exti_core_pr1 (1 <<< pin)
    barrier Barrier.dsb

  unfoldable pub das_gpio_interrupt_configure : DasGpioPin → ℕ → M (Unit {0})
  das_gpio_interrupt_configure pin edge = do
    let port_index = gpio_port_index pin.port
    fail_if (not (resolve_pin pin) || port_index == uint32_max || not (edge_valid edge))
        invalid_argument
    enable_syscfg
    program_line port_index pin.pin edge

  unfoldable pub das_gpio_interrupt_enable : DasGpioPin → Bool → M (Unit {0})
  das_gpio_interrupt_enable pin enabled = do
    fail_if (not (resolve_pin pin)) invalid_argument
    modify_reg Reg.exti_core_imr1 (with_bit pin.pin enabled)
    barrier Barrier.dsb

  unfoldable pub das_gpio_interrupt_pending : DasGpioPin → M Bool
  das_gpio_interrupt_pending pin =
      if resolve_pin pin
      then (do pr1 ← read_reg Reg.exti_core_pr1; return (has_bits pr1 (1 <<< pin.pin)))
      else return false

  unfoldable pub das_gpio_interrupt_clear : DasGpioPin → M (Unit {0})
  das_gpio_interrupt_clear pin = do
    fail_if (not (resolve_pin pin)) invalid_argument
    write_reg Reg.exti_core_pr1 (1 <<< pin.pin)
    barrier Barrier.dsb

  -- Lines 0 to 4 have interrupts of their own, 5 to 9 share one, and so do 10 to 15.
  unfoldable pub line_irq : ℕ → ℕ
  line_irq pin =
      if leb pin 4
      then p.cmsis.exti_irqn pin
      else if leb pin 9
      then p.cmsis.exti_irqn 5
      else p.cmsis.exti_irqn 10

  unfoldable pub das_gpio_interrupt_get_irq : DasGpioPin → Bool → M ℕ
  das_gpio_interrupt_get_irq pin irq = do
    fail_if (not (gpio_pin_valid pin) || not irq) invalid_argument
    return (line_irq pin.pin)
