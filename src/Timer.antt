-- ===== src/Timer.antt =====
-- src/device/stm32h755/timer.c: the periodic timer on TIM2 and the PWM output on TIM1 channel 4.
pub mod Dividers
pub mod Periodic
pub mod Pwm
pub mod Bounds
