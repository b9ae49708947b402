-- ===== src/Timer/Dividers.antt =====
-- The arithmetic of src/device/stm32h755/timer.c. The sums and products are of `uint64_t`; with
-- `uint32_t` arguments none of them wraps, except where a conversion is written. The output
-- pointers are addresses of locals and never null.
use device_abstraction_stack.Base.{
  ℕ, ◌+◌, ◌-◌, ◌*◌, ◌/◌, ◌%◌, ◌||◌, ltb, leb, ◌==◌, ◌!=◌, if◌then◌else◌, u32, u64, uint32_max, Bool,
  has_bits,
}
use device_abstraction_stack.Machine.Reg.{Reg}
use device_abstraction_stack.Machine.Platform.{Platform}
use device_abstraction_stack.Machine.Monad.{
  M, Outcome, ok, err, invalid_argument, unsupported, not_ready, return, fail_if, ◌>>=◌, ◌>>◌,
  read_reg,
}
use device_abstraction_stack.Clock.Tree.{stm32h755_clock_get_frequencies}

abbrev pub pwm_max_period_counts : ℕ
pwm_max_period_counts = 65536

-- `(clock_hz + requested_hz / 2) / requested_hz`
abbrev pub rounded : ℕ → ℕ → ℕ
rounded a b = (a + b / 2) / b

-- The prescaler and the reload value.
unfoldable pub periodic_dividers : ℕ → ℕ → Outcome (ℕ × ℕ)
periodic_dividers clock_hz requested_hz =
    if requested_hz == 0 || ltb clock_hz requested_hz
    then err invalid_argument
    else let period_counts = rounded clock_hz requested_hz in
      if period_counts == 0 || ltb (uint32_max + 1) period_counts
      then err unsupported
      else ok (0, u32 (period_counts - 1))

-- `if (x == 0u) x = 1u;`
abbrev pub at_least_one : ℕ → ℕ
at_least_one x = if x == 0 then 1 else x

unfoldable pub pwm_dividers : ℕ → ℕ → Outcome (ℕ × ℕ)
pwm_dividers clock_hz requested_hz =
    if requested_hz == 0 || ltb clock_hz requested_hz
    then err invalid_argument
    else let total_counts = rounded clock_hz requested_hz in
      if total_counts == 0
      then err unsupported
      else let prescaler_div =
          at_least_one ((total_counts + pwm_max_period_counts - 1) / pwm_max_period_counts) in
        if ltb (0xffff + 1) prescaler_div
        then err unsupported
        else let period_counts = at_least_one (rounded clock_hz (requested_hz * prescaler_div)) in
          if ltb pwm_max_period_counts period_counts
          then err unsupported
          else ok (u32 (prescaler_div - 1), u32 (period_counts - 1))

unfoldable pub pwm_compare : ℕ → ℕ → ℕ
pwm_compare period_counts duty_per_mille =
    let compare = (period_counts * duty_per_mille + 500) / 1000 in
    u32 (if ltb 0xffff compare then 0xffff else compare)

-- The duty that `das_pwm_get_duty` computes from `CCR4` and the period.
unfoldable pub duty_of : ℕ → ℕ → ℕ
duty_of ccr4 period_counts =
    let duty = u32 ((ccr4 * 1000 + period_counts / 2) / period_counts) in
    if ltb 1000 duty then 1000 else duty

-- The multiple of the peripheral clock that drives the timers.
unfoldable pub timer_clock : Bool → ℕ → ℕ → ℕ
timer_clock timpre ahb_hz pclk_hz =
    let apb_divider = ahb_hz / pclk_hz in
    if timpre
    then (if leb apb_divider 4 then ahb_hz else u32 (pclk_hz * 4))
    else (if apb_divider == 1 then pclk_hz else u32 (pclk_hz * 2))

module _ ⦃p : Platform⦄ where
  unfoldable pub timer_kernel_frequency : Bool → M ℕ
  timer_kernel_frequency apb2 = do
    clocks ← stm32h755_clock_get_frequencies 0
    let pclk_hz = if apb2 then clocks.apb2_hz else clocks.apb1_hz
    fail_if (pclk_hz == 0 || clocks.ahb_hz == 0 || clocks.ahb_hz % pclk_hz != 0) not_ready
    cfgr ← read_reg Reg.rcc_cfgr
    let frequency_hz = timer_clock (has_bits cfgr p.cmsis.tim.rcc_timpre) clocks.ahb_hz pclk_hz
    fail_if (frequency_hz == 0) not_ready
    return frequency_hz

  -- `(clock_hz + divisor / 2) / divisor`, from the prescaler and reload values
  unfoldable pub live_frequency : ℕ → Reg → Reg → M ℕ
  live_frequency clock_hz psc_reg arr_reg = do
    psc ← read_reg psc_reg
    arr ← read_reg arr_reg
    let divisor = u64 ((psc + 1) * (arr + 1))
    fail_if (divisor == 0) not_ready
    return (u32 (rounded clock_hz divisor))
