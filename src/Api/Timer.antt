-- ===== src/Api/Timer.antt =====
-- include/das/timer.h
use device_abstraction_stack.Base.{ℕ, uint32_max}

abbrev pub das_timer_invalid : ℕ
das_timer_invalid = uint32_max

abbrev pub das_pwm_invalid : ℕ
das_pwm_invalid = uint32_max

-- `das_pwm_config_t`; `das_timer_config_t` is its one field, the frequency.
pub record DasPwmConfig : Type 0 where
  pub frequency_hz : ℕ
  pub duty_per_mille : ℕ
