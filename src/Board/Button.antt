-- ===== src/Board/Button.antt =====
-- The button of src/board/nucleo_h755zi_q/resources.c.
use device_abstraction_stack.Base.{
  ℕ, Bool, false, not, ◌||◌, Option, none, some, ◌==◌, if◌then◌else◌,
}
use device_abstraction_stack.Api.Gpio.{
  das_gpio_pull_none, das_gpio_interrupt_rising, das_gpio_interrupt_falling,
  das_gpio_interrupt_both,
}
use device_abstraction_stack.Api.Board.{
  das_board_button_event_press, das_board_button_event_release, das_board_button_event_both,
}
use device_abstraction_stack.Machine.Platform.{Platform}
use device_abstraction_stack.Machine.Monad.{M, invalid_argument, return, fail, fail_if, ◌>>◌}
use device_abstraction_stack.Gpio.Setup.{das_gpio_input_init}
use device_abstraction_stack.Gpio.Level.{das_gpio_read_input}
use device_abstraction_stack.Gpio.Interrupt.{
  das_gpio_interrupt_configure, das_gpio_interrupt_enable, das_gpio_interrupt_pending,
  das_gpio_interrupt_clear, das_gpio_interrupt_get_irq,
}
use device_abstraction_stack.Board.Pins.{button_valid, button_pin}

-- The edge of an event.
unfoldable pub edge_of : ℕ → Option ℕ
edge_of event =
    if event == das_board_button_event_press
    then some das_gpio_interrupt_rising
    else if event == das_board_button_event_release
    then some das_gpio_interrupt_falling
    else if event == das_board_button_event_both
    then some das_gpio_interrupt_both
    else none

module _ ⦃p : Platform⦄ where
  unfoldable pub das_board_button_init : ℕ → M (Unit {0})
  das_board_button_init button = do
    fail_if (not (button_valid button)) invalid_argument
    das_gpio_input_init button_pin das_gpio_pull_none

  unfoldable pub das_board_button_is_pressed : ℕ → M Bool
  das_board_button_is_pressed button =
      if button_valid button then das_gpio_read_input button_pin else return false

  -- `das_board_button_init`, and the interrupt at an edge.
  unfoldable pub configure_edge : ℕ → ℕ → M (Unit {0})
  configure_edge button edge = do
    das_board_button_init button
    das_gpio_interrupt_configure button_pin edge

  unfoldable pub das_board_button_interrupt_configure : ℕ → ℕ → M (Unit {0})
  das_board_button_interrupt_configure button event = do
    fail_if (not (button_valid button)) invalid_argument
    elim (edge_of event) [ none ↦ fail invalid_argument | some edge ↦ configure_edge button edge ]

  unfoldable pub das_board_button_interrupt_enable : ℕ → Bool → M (Unit {0})
  das_board_button_interrupt_enable button enabled = do
    fail_if (not (button_valid button)) invalid_argument
    das_gpio_interrupt_enable button_pin enabled

  unfoldable pub das_board_button_interrupt_pending : ℕ → M Bool
  das_board_button_interrupt_pending button =
      if button_valid button then das_gpio_interrupt_pending button_pin else return false

  unfoldable pub das_board_button_interrupt_clear : ℕ → M (Unit {0})
  das_board_button_interrupt_clear button = do
    fail_if (not (button_valid button)) invalid_argument
    das_gpio_interrupt_clear button_pin

  unfoldable pub das_board_button_interrupt_get_irq : ℕ → Bool → M ℕ
  das_board_button_interrupt_get_irq button irq = do
    fail_if (not (button_valid button) || not irq) invalid_argument
    das_gpio_interrupt_get_irq button_pin irq
