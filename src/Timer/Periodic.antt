-- ===== src/Timer/Periodic.antt =====
-- The periodic timer, TIM2.
use device_abstraction_stack.Base.{
  ℕ, Bool, false, not, ◌||◌, Option, none, some, ◌==◌, if◌then◌else◌, bit_or, bit_clear, has_bits,
  u32,
}
use device_abstraction_stack.Machine.Reg.{Reg, Barrier}
use device_abstraction_stack.Machine.Platform.{Platform}
use device_abstraction_stack.Machine.Monad.{
  M, invalid_argument, return, fail, fail_if, lift, ◌>>=◌, ◌>>◌, read_reg, write_reg, modify_reg,
  barrier,
}
use device_abstraction_stack.Timer.Dividers.{
  timer_kernel_frequency, periodic_dividers, live_frequency,
}

abbrev pub timer_general_storage : ℕ
timer_general_storage = 0x544d_0002

unfoldable pub timer_valid : ℕ → Bool
timer_valid timer = timer == timer_general_storage

module _ ⦃p : Platform⦄ where
  unfoldable pub enable_tim2_clock : M (Unit {0})
  enable_tim2_clock = do
    modify_reg Reg.core_apb1lenr (λ v. bit_or v p.cmsis.tim.rcc_tim2en)
    unused ← read_reg Reg.core_apb1lenr
    barrier Barrier.dsb

  unfoldable pub program_tim2 : ℕ → ℕ → M (Unit {0})
  program_tim2 prescaler autoreload = do
    enable_tim2_clock
    write_reg Reg.tim2_cr1 0
    write_reg Reg.tim2_cr2 0
    write_reg Reg.tim2_smcr 0
    write_reg Reg.tim2_dier 0
    write_reg Reg.tim2_ccer 0
    write_reg Reg.tim2_psc prescaler
    write_reg Reg.tim2_arr autoreload
    write_reg Reg.tim2_cnt 0
    write_reg Reg.tim2_sr 0
    write_reg Reg.tim2_cr1 p.cmsis.tim.cr1_arpe
    write_reg Reg.tim2_egr p.cmsis.tim.egr_ug
    write_reg Reg.tim2_sr 0
    barrier Barrier.dsb

  -- The configuration is its frequency. An error after the first check stores `DAS_TIMER_INVALID`.
  unfoldable pub das_timer_init : Option ℕ → Bool → M ℕ
  das_timer_init none timer = fail invalid_argument
  das_timer_init (some frequency_hz) timer = do
    fail_if (not timer || frequency_hz == 0) invalid_argument
    clock_hz ← timer_kernel_frequency false
    dividers ← lift (periodic_dividers clock_hz frequency_hz)
    program_tim2 dividers.0 dividers.1
    return timer_general_storage

  unfoldable pub das_timer_is_valid : ℕ → Bool
  das_timer_is_valid timer = timer_valid timer

  unfoldable pub das_timer_start : ℕ → M (Unit {0})
  das_timer_start timer = do
    fail_if (not (timer_valid timer)) invalid_argument
    modify_reg Reg.tim2_cr1 (λ v. bit_or v p.cmsis.tim.cr1_cen)

  unfoldable pub das_timer_stop : ℕ → M (Unit {0})
  das_timer_stop timer = do
    fail_if (not (timer_valid timer)) invalid_argument
    modify_reg Reg.tim2_cr1 (λ v. bit_clear v p.cmsis.tim.cr1_cen)

  unfoldable pub das_timer_is_running : ℕ → Bool → M Bool
  das_timer_is_running timer running = do
    fail_if (not (timer_valid timer) || not running) invalid_argument
    cr1 ← read_reg Reg.tim2_cr1
    return (has_bits cr1 p.cmsis.tim.cr1_cen)

  unfoldable pub das_timer_get_frequency : ℕ → Bool → M ℕ
  das_timer_get_frequency timer frequency_hz = do
    fail_if (not (timer_valid timer) || not frequency_hz) invalid_argument
    clock_hz ← timer_kernel_frequency false
    live_frequency clock_hz Reg.tim2_psc Reg.tim2_arr

  unfoldable pub das_timer_get_counter : ℕ → Bool → M ℕ
  das_timer_get_counter timer counter = do
    fail_if (not (timer_valid timer) || not counter) invalid_argument
    read_reg Reg.tim2_cnt

  unfoldable pub das_timer_reset_counter : ℕ → M (Unit {0})
  das_timer_reset_counter timer = do
    fail_if (not (timer_valid timer)) invalid_argument
    write_reg Reg.tim2_cnt 0

  unfoldable pub das_timer_update_interrupt_enable : ℕ → Bool → M (Unit {0})
  das_timer_update_interrupt_enable timer enabled = do
    fail_if (not (timer_valid timer)) invalid_argument
    if enabled
        then modify_reg Reg.tim2_dier (λ v. bit_or v p.cmsis.tim.dier_uie)
        else modify_reg Reg.tim2_dier (λ v. bit_clear v p.cmsis.tim.dier_uie)

  unfoldable pub das_timer_update_pending : ℕ → Bool → M Bool
  das_timer_update_pending timer pending = do
    fail_if (not (timer_valid timer) || not pending) invalid_argument
    sr ← read_reg Reg.tim2_sr
    return (has_bits sr p.cmsis.tim.sr_uif)

  unfoldable pub das_timer_clear_update : ℕ → M (Unit {0})
  das_timer_clear_update timer = do
    fail_if (not (timer_valid timer)) invalid_argument
    modify_reg Reg.tim2_sr (λ v. bit_clear v p.cmsis.tim.sr_uif)

  unfoldable pub das_timer_get_irq : ℕ → Bool → M ℕ
  das_timer_get_irq timer irq = do
    fail_if (not (timer_valid timer) || not irq) invalid_argument
    return (u32 p.cmsis.tim.tim2_irqn)
