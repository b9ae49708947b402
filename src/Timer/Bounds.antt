-- ===== src/Timer/Bounds.antt =====
-- The dividers of the timers fit the registers and come as near to the requested rate as the
-- counts allow, and a duty cycle survives the conversion to counts and back.
use device_abstraction_stack.Base.{
  ℕ, zero, suc, Bool-cases, ◌⊎◌, inl, inr, ◌+◌, ◌-◌, ◌*◌, ◌/◌, ◌^◌, ◌≤◌, ◌<◌, ◌≡◌, refl, arith,
  uint32_max, min, ◌==◌,
}
use device_abstraction_stack.Base.Rounding.{
  Nearest, rounded-Nearest, le_quotient, quotient_le, mul_mono,
}
use device_abstraction_stack.Machine.Monad.{ok}
use device_abstraction_stack.Timer.Dividers.{
  periodic_dividers, pwm_dividers, pwm_compare, duty_of, rounded, pwm_max_period_counts,
}

-- For every rate from 1 Hz up to a `uint32_t` timer clock, `periodic_dividers` succeeds without prescaling,
-- the reload value fits 32 bits, and the counts of a period are the nearest whole number: they
-- differ from the clock by at most half of the requested rate, in clock cycles of one second.
pub periodic_dividers-Nearest :
    (clock_hz requested_hz : ℕ)
    → 1 ≤ requested_hz
    → requested_hz ≤ clock_hz
    → clock_hz ≤ uint32_max
    → (autoreload : ℕ) × (periodic_dividers clock_hz requested_hz ≡ ok (0, autoreload))
      × (autoreload < 2 ^ 32)
      × (Nearest clock_hz requested_hz (autoreload + 1))
unfolding periodic_dividers
periodic_dividers-Nearest clock_hz requested_hz h k l =
    let q = rounded clock_hz requested_hz in
    let near = rounded-Nearest clock_hz requested_hz h in
    let low : 1 ≤ q = le_quotient (clock_hz + requested_hz / 2) requested_hz 1 h (omega arith) in
    let high : q ≤ uint32_max + 1 =
      quotient_le (clock_hz + requested_hz / 2) requested_hz (uint32_max + 1) h (grind arith) in
    let whole : q - 1 + 1 ≡ q = omega arith in (q - 1, ground arith, omega arith, rw whole near)

-- For a duty of at most 1000, `pwm_compare` exceeds neither the register nor the period. It is 0 at
-- duty 0; at duty 1000 it is the period, but for a period of 65536 counts or more the largest value
-- of the register.
pub pwm_compare_bounds :
    (period_counts duty_per_mille : ℕ)
    → duty_per_mille ≤ 1000
    → (pwm_compare period_counts duty_per_mille ≤ 0xffff)
      × (pwm_compare period_counts duty_per_mille ≤ period_counts)
      × (pwm_compare period_counts 0 ≡ 0)
      × (pwm_compare period_counts 1000 ≡ min period_counts 0xffff)
unfolding pwm_compare
pwm_compare_bounds period_counts duty_per_mille h =
    let bound : period_counts * duty_per_mille ≤ period_counts * 1000 = grind arith in
    (ground arith, ground arith, ground arith, ground arith)

-- A duty of at most 1000 per mille that is written with `pwm_compare` is read back unchanged with `duty_of`, for
-- every period of 1000 to 65535 counts.
pub duty_of-pwm_compare :
    (period_counts duty_per_mille : ℕ)
    → 1000 ≤ period_counts
    → period_counts ≤ 0xffff
    → duty_per_mille ≤ 1000
    → duty_of (pwm_compare period_counts duty_per_mille) period_counts ≡ duty_per_mille
unfolding pwm_compare duty_of
duty_of-pwm_compare period_counts duty_per_mille h k l =
    let c = (period_counts * duty_per_mille + 500) / 1000 in
    let bound : period_counts * duty_per_mille ≤ period_counts * 1000 = grind arith in
    let some_count : 0 < period_counts = omega arith in
    let low : duty_per_mille ≤ (c * 1000 + period_counts / 2) / period_counts =
      le_quotient (c * 1000 + period_counts / 2) period_counts duty_per_mille some_count
        (omega arith) in
    let high : (c * 1000 + period_counts / 2) / period_counts ≤ duty_per_mille =
      quotient_le (c * 1000 + period_counts / 2) period_counts duty_per_mille some_count
        (within h) in
    ground (arith, low, high, bound)
  where
    within :
        1000 ≤ period_counts
        → (period_counts * duty_per_mille + 500) / 1000 * 1000 + period_counts / 2
          < duty_per_mille * period_counts + period_counts
    within h = elim (Bool-cases (period_counts == 1000)) [
      | inl exact ↦ let e : period_counts ≡ 1000 = ground arith in rw e (omega arith)
      | inr other ↦ let more : 1000 < period_counts = ground arith in omega arith
    ]

-- The prescaled period fits when the whole period takes at most `d` prescaled ones.
fits :
    (c r t d : ℕ)
    → 0 < r
    → 0 < d
    → Nearest c r t
    → t ≤ d * pwm_max_period_counts
    → rounded c (r * d) ≤ pwm_max_period_counts
fits c r t d h k (lo, hi) e =
    let whole : t * r ≤ d * pwm_max_period_counts * r =
      mul_mono t (d * pwm_max_period_counts) r e in
    let step : r ≤ r * d = omega (arith, mul_mono 1 d r k) in
    let positive : 0 < r * d = omega arith in
    let apart : r * d ≡ r ⊎ r + r ≤ r * d = doubled r d k in
    quotient_le (c + r * d / 2) (r * d) pwm_max_period_counts positive (within apart whole)
  where
    doubled : (r d : ℕ) → 0 < d → r * d ≡ r ⊎ r + r ≤ r * d
    doubled r zero h = absurd (omega arith)
    doubled r (suc zero) h = inl (omega arith)
    doubled r (suc (suc d)) h = inr (omega arith)

    within :
        r * d ≡ r ⊎ r + r ≤ r * d
        → t * r ≤ d * pwm_max_period_counts * r
        → c + r * d / 2 < pwm_max_period_counts * (r * d) + r * d
    within (inl one) whole = omega arith
    within (inr more) whole = omega arith

-- For every rate from 1 Hz up to a `uint32_t` timer clock, `pwm_dividers` succeeds, the prescaler and the
-- reload value fit the 16-bit registers, and unless the period was raised to one count, its counts
-- are the nearest whole number at the prescaled clock.
pub pwm_dividers-Nearest :
    (clock_hz requested_hz : ℕ)
    → 1 ≤ requested_hz
    → requested_hz ≤ clock_hz
    → clock_hz ≤ uint32_max
    → (prescaler : ℕ) × (autoreload : ℕ) × (pwm_dividers clock_hz requested_hz
        ≡ ok (prescaler, autoreload))
      × (prescaler < 2 ^ 16)
      × (autoreload < 2 ^ 16)
      × (autoreload ≡ 0 ⊎ Nearest clock_hz (requested_hz * (prescaler + 1)) (autoreload + 1))
unfolding pwm_dividers
pwm_dividers-Nearest clock_hz requested_hz h k l =
    let total = rounded clock_hz requested_hz in
    let near = rounded-Nearest clock_hz requested_hz h in
    let low : 1 ≤ total =
      le_quotient (clock_hz + requested_hz / 2) requested_hz 1 h (omega arith) in
    let high : total ≤ uint32_max + 1 =
      quotient_le (clock_hz + requested_hz / 2) requested_hz (uint32_max + 1) h (grind arith) in
    let d = (total + pwm_max_period_counts - 1) / pwm_max_period_counts in
    let some_div : 0 < d = omega arith in
    let few : d ≤ 65536 = omega arith in
    let period = rounded clock_hz (requested_hz * d) in
    let period_fits : period ≤ pwm_max_period_counts =
      fits clock_hz requested_hz total d h some_div near (omega arith) in
    let positive : 0 < requested_hz * d = grind arith in
    let near' : Nearest clock_hz (requested_hz * d) period =
      rounded-Nearest clock_hz (requested_hz * d) positive in
    let whole : d - 1 + 1 ≡ d = omega arith in
    elim (zero_or_more period) [
      | inl none ↦
          (d - 1, 0, ground (arith, period_fits, few, some_div), omega arith, omega arith, inl refl)
      | inr more ↦ (
        d - 1,
        period - 1,
        ground (arith, period_fits, few, some_div),
        omega arith,
        omega arith,
        inr (let back : period - 1 + 1 ≡ period = omega arith in rw (whole, back) near'),
      )
    ]
  where
    zero_or_more : (n : ℕ) → (n ≡ 0) ⊎ (0 < n)
    zero_or_more zero = inl refl
    zero_or_more (suc n) = inr (omega arith)
