-- ===== src/Api/Gpio.antt =====
-- include/das/gpio.h. The enumerations are their numbers.
use device_abstraction_stack.Base.{ℕ, Bool}

abbrev pub das_gpio_port_k : ℕ
das_gpio_port_k = 10

abbrev pub das_gpio_mode_input : ℕ
das_gpio_mode_input = 0

abbrev pub das_gpio_mode_output : ℕ
das_gpio_mode_output = 1

abbrev pub das_gpio_mode_alternate : ℕ
das_gpio_mode_alternate = 2

abbrev pub das_gpio_mode_analog : ℕ
das_gpio_mode_analog = 3

abbrev pub das_gpio_pull_none : ℕ
das_gpio_pull_none = 0

abbrev pub das_gpio_pull_up : ℕ
das_gpio_pull_up = 1

abbrev pub das_gpio_pull_down : ℕ
das_gpio_pull_down = 2

abbrev pub das_gpio_output_push_pull : ℕ
das_gpio_output_push_pull = 0

abbrev pub das_gpio_output_open_drain : ℕ
das_gpio_output_open_drain = 1

abbrev pub das_gpio_speed_low : ℕ
das_gpio_speed_low = 0

abbrev pub das_gpio_speed_very_high : ℕ
das_gpio_speed_very_high = 3

abbrev pub das_gpio_interrupt_rising : ℕ
das_gpio_interrupt_rising = 1

abbrev pub das_gpio_interrupt_falling : ℕ
das_gpio_interrupt_falling = 2

abbrev pub das_gpio_interrupt_both : ℕ
das_gpio_interrupt_both = 3

-- `das_gpio_pin_t`
pub record DasGpioPin : Type 0 where
  pub port : ℕ
  pub pin : ℕ

-- `das_gpio_config_t`
pub record DasGpioConfig : Type 0 where
  pub mode : ℕ
  pub pull : ℕ
  pub output_type : ℕ
  pub speed : ℕ
  pub alternate : ℕ
  pub initial_high : Bool
