-- ===== src/I2c/Timing.antt =====
-- The timing word of src/device/stm32h755/i2c.c, and the rate that it stands for.
use device_abstraction_stack.Base.{
  ℕ, zero, suc, ◌+◌, ◌-◌, ◌*◌, ◌/◌, ◌^◌, Option, none, some, ltb, leb, ◌==◌, ◌!=◌, ◌&&◌, ◌||◌,
  if◌then◌else◌, u32, u64, bit_and, bit_or, ◌<<<◌, ◌>>>◌,
}
use device_abstraction_stack.Machine.Platform.{Platform}
use device_abstraction_stack.Machine.Monad.{Outcome, ok, err, invalid_argument, unsupported}

unfoldable pub ceil_div_u64 : ℕ → ℕ → ℕ
ceil_div_u64 numerator denominator =
    u32 (u64 (numerator + denominator + (2 ^ 64 - 1)) / denominator)

-- The loop of `calculate_timing` at `candidate`, with `left` candidates to try: the divider of the
-- prescaler and the ticks of half a period.
unfoldable pub presc_from : ℕ → ℕ → ℕ → ℕ → Option (ℕ × ℕ)
presc_from zero candidate kernel_hz bus_hz = none
presc_from (suc left) candidate kernel_hz bus_hz =
    let rest = presc_from left (candidate + 1) kernel_hz bus_hz in
    let ticks = ceil_div_u64 kernel_hz (u64 (2 * bus_hz * candidate)) in
    if leb 2 ticks && leb ticks 256 then some (candidate, ticks) else rest

-- The fields of TIMINGR; SCLL and SCLH are equal.
pub record Fields : Type 0 where
  pub presc : ℕ
  pub scldel : ℕ
  pub sdadel : ℕ
  pub scl : ℕ

unfoldable pub scldel_ticks_of : ℕ → ℕ → ℕ → ℕ
scldel_ticks_of kernel_hz bus_hz presc_div =
    let scldel_ns = if leb bus_hz 100_000 then 500 else 125 in
    let ticks = ceil_div_u64 (u64 (kernel_hz * scldel_ns)) (u64 (1_000_000_000 * presc_div)) in
    if ticks == 0 then 1 else ticks

unfoldable pub sdadel_ticks_of : ℕ → ℕ → ℕ
sdadel_ticks_of kernel_hz presc_div =
    ceil_div_u64 (u64 (kernel_hz * 100)) (u64 (1_000_000_000 * presc_div))

-- What follows the loop, up to the fields.
unfoldable pub fields_from : ℕ → ℕ → Option (ℕ × ℕ) → Outcome Fields
fields_from kernel_hz bus_hz none = err unsupported
fields_from kernel_hz bus_hz (some (presc_div, half_ticks)) =
    if ltb 16 (scldel_ticks_of kernel_hz bus_hz presc_div)
      || ltb 15 (sdadel_ticks_of kernel_hz presc_div)
    then err unsupported
    else ok (record {
      presc = presc_div - 1;
      scldel = scldel_ticks_of kernel_hz bus_hz presc_div - 1;
      sdadel = sdadel_ticks_of kernel_hz presc_div;
      scl = half_ticks - 1;
    })

unfoldable pub calculate_fields : ℕ → ℕ → Outcome Fields
calculate_fields kernel_hz bus_hz =
    if kernel_hz == 0 || bus_hz != 100_000 && bus_hz != 400_000
    then err invalid_argument
    else fields_from kernel_hz bus_hz (presc_from 16 1 kernel_hz bus_hz)

module _ ⦃p : Platform⦄ where
  unfoldable pub timing_word : Fields → ℕ
  timing_word f =
      let i2c = p.cmsis.i2c in
      bit_or
        (bit_or
          (bit_or (bit_or (f.presc <<< i2c.timingr_presc_pos) (f.scldel <<< i2c.timingr_scldel_pos))
            (f.sdadel <<< i2c.timingr_sdadel_pos))
          (f.scl <<< i2c.timingr_sclh_pos))
        (f.scl <<< i2c.timingr_scll_pos)

  unfoldable pub packed : Outcome Fields → Outcome ℕ
  packed (ok f) = ok (timing_word f)
  packed (err e) = err e
  packed Outcome.spinning = Outcome.spinning

  -- `timing` is the address of a local and never null.
  unfoldable pub calculate_timing : ℕ → ℕ → Outcome ℕ
  calculate_timing kernel_hz bus_hz = packed (calculate_fields kernel_hz bus_hz)

  -- The divider of the kernel clock in `das_i2c_get_frequency`.
  unfoldable pub divider_of : ℕ → ℕ
  divider_of timing =
      let i2c = p.cmsis.i2c in
      let presc = u32 ((bit_and timing i2c.timingr_presc >>> i2c.timingr_presc_pos) + 1) in
      let sclh = u32 ((bit_and timing i2c.timingr_sclh >>> i2c.timingr_sclh_pos) + 1) in
      let scll = u32 ((bit_and timing i2c.timingr_scll >>> i2c.timingr_scll_pos) + 1) in
      u32 (presc * u32 (sclh + scll))
