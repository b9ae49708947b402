-- ===== src/Timer/Pwm.antt =====
-- The PWM output, TIM1 channel 4.
use device_abstraction_stack.Base.{
  ℕ, ◌+◌, Bool, true, false, not, ◌||◌, Option, none, some, ◌==◌, ltb, if◌then◌else◌, bit_or,
  bit_clear, has_bits, u32, u16,
}
use device_abstraction_stack.Api.Timer.{DasPwmConfig, das_pwm_invalid}
use device_abstraction_stack.Machine.Reg.{Reg, Barrier}
use device_abstraction_stack.Machine.Platform.{Platform}
use device_abstraction_stack.Machine.Monad.{
  M, invalid_argument, not_ready, return, fail, fail_if, lift, ◌>>=◌, ◌>>◌, read_reg, write_reg,
  modify_reg, barrier,
}
use device_abstraction_stack.Timer.Dividers.{
  timer_kernel_frequency, pwm_dividers, pwm_compare, duty_of, live_frequency,
}

-- `stm32h755_pwm_output_t` has one value.
abbrev pub pwm_tim1_ch4 : ℕ
pwm_tim1_ch4 = 0

abbrev pub pwm_tim1_ch4_storage : ℕ
pwm_tim1_ch4_storage = 0x5057_0104

unfoldable pub pwm_valid : ℕ → Bool
pwm_valid pwm = pwm == pwm_tim1_ch4_storage

unfoldable pub das_pwm_is_valid : ℕ → Bool
das_pwm_is_valid pwm = pwm_valid pwm

unfoldable pub stm32h755_pwm_handle : ℕ → ℕ
stm32h755_pwm_handle output =
    if output == pwm_tim1_ch4 then pwm_tim1_ch4_storage else das_pwm_invalid

module _ ⦃p : Platform⦄ where
  unfoldable pub enable_tim1_clock : M (Unit {0})
  enable_tim1_clock = do
    modify_reg Reg.core_apb2enr (λ v. bit_or v p.cmsis.tim.rcc_tim1en)
    unused ← read_reg Reg.core_apb2enr
    barrier Barrier.dsb

  unfoldable pub program_tim1 : ℕ → ℕ → ℕ → M (Unit {0})
  program_tim1 prescaler autoreload duty_per_mille = do
    let tim = p.cmsis.tim
    enable_tim1_clock
    write_reg Reg.tim1_cr1 0
    write_reg Reg.tim1_cr2 0
    write_reg Reg.tim1_smcr 0
    write_reg Reg.tim1_dier 0
    write_reg Reg.tim1_ccer 0
    write_reg Reg.tim1_psc prescaler
    write_reg Reg.tim1_arr autoreload
    write_reg Reg.tim1_cnt 0
    modify_reg Reg.tim1_ccmr2 (λ v. bit_clear v (bit_or tim.ccmr2_cc4s tim.ccmr2_oc4m))
    modify_reg Reg.tim1_ccmr2
        (λ v. bit_or v (bit_or (bit_or tim.ccmr2_oc4pe tim.ccmr2_oc4m_1) tim.ccmr2_oc4m_2))
    write_reg Reg.tim1_ccr4 (pwm_compare (u32 (autoreload + 1)) duty_per_mille)
    modify_reg Reg.tim1_ccer (λ v. bit_clear v (bit_or tim.ccer_cc4p tim.ccer_cc4np))
    modify_reg Reg.tim1_bdtr (λ v. bit_or v tim.bdtr_moe)
    write_reg Reg.tim1_cr1 tim.cr1_arpe
    write_reg Reg.tim1_egr tim.egr_ug
    write_reg Reg.tim1_sr 0
    barrier Barrier.dsb

  unfoldable pub das_pwm_init : ℕ → Option DasPwmConfig → M (Unit {0})
  das_pwm_init pwm none = fail invalid_argument
  das_pwm_init pwm (some config) = do
    fail_if (not (pwm_valid pwm) || config.frequency_hz == 0 || ltb 1000 config.duty_per_mille)
        invalid_argument
    clock_hz ← timer_kernel_frequency true
    dividers ← lift (pwm_dividers clock_hz config.frequency_hz)
    program_tim1 dividers.0 dividers.1 config.duty_per_mille

  unfoldable pub das_pwm_start : ℕ → M (Unit {0})
  das_pwm_start pwm = do
    fail_if (not (pwm_valid pwm)) invalid_argument
    modify_reg Reg.tim1_bdtr (λ v. bit_or v p.cmsis.tim.bdtr_moe)
    modify_reg Reg.tim1_ccer (λ v. bit_or v p.cmsis.tim.ccer_cc4e)
    modify_reg Reg.tim1_cr1 (λ v. bit_or v p.cmsis.tim.cr1_cen)

  unfoldable pub das_pwm_stop : ℕ → M (Unit {0})
  das_pwm_stop pwm = do
    fail_if (not (pwm_valid pwm)) invalid_argument
    modify_reg Reg.tim1_cr1 (λ v. bit_clear v p.cmsis.tim.cr1_cen)
    modify_reg Reg.tim1_ccer (λ v. bit_clear v p.cmsis.tim.ccer_cc4e)

  -- `CCER` is read only if the counter is enabled.
  unfoldable pub das_pwm_is_running : ℕ → Bool → M Bool
  das_pwm_is_running pwm running = do
    fail_if (not (pwm_valid pwm) || not running) invalid_argument
    cr1 ← read_reg Reg.tim1_cr1
    if has_bits cr1 p.cmsis.tim.cr1_cen
        then (do ccer ← read_reg Reg.tim1_ccer; return (has_bits ccer p.cmsis.tim.ccer_cc4e))
        else return false

  -- `TIM1->ARR + 1u`, refused when it wraps to 0
  unfoldable pub read_period : M ℕ
  read_period = do
    arr ← read_reg Reg.tim1_arr
    let period_counts = u32 (arr + 1)
    fail_if (period_counts == 0) not_ready
    return period_counts

  unfoldable pub das_pwm_set_duty : ℕ → ℕ → M (Unit {0})
  das_pwm_set_duty pwm duty_per_mille = do
    fail_if (not (pwm_valid pwm) || ltb 1000 duty_per_mille) invalid_argument
    period_counts ← read_period
    write_reg Reg.tim1_ccr4 (pwm_compare period_counts duty_per_mille)
    cr1 ← read_reg Reg.tim1_cr1
    if has_bits cr1 p.cmsis.tim.cr1_cen
        then return tt
        else write_reg Reg.tim1_egr p.cmsis.tim.egr_ug

  unfoldable pub das_pwm_get_duty : ℕ → Bool → M ℕ
  das_pwm_get_duty pwm duty_per_mille = do
    fail_if (not (pwm_valid pwm) || not duty_per_mille) invalid_argument
    period_counts ← read_period
    ccr4 ← read_reg Reg.tim1_ccr4
    return (u16 (duty_of ccr4 period_counts))

  unfoldable pub das_pwm_get_frequency : ℕ → Bool → M ℕ
  das_pwm_get_frequency pwm frequency_hz = do
    fail_if (not (pwm_valid pwm) || not frequency_hz) invalid_argument
    clock_hz ← timer_kernel_frequency true
    live_frequency clock_hz Reg.tim1_psc Reg.tim1_arr
