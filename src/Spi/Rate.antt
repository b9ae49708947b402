-- ===== src/Spi/Rate.antt =====
-- The divider that `select_prescaler` chooses.
use device_abstraction_stack.Base.{
  ℕ, zero, suc, ◌+◌, ◌/◌, ◌≤◌, ◌<◌, ◌≡◌, ◌⊎◌, inl, inr, refl, arith, leb, ◌==◌, ◌||◌, if◌then◌else◌,
  Bool-cases, false,
}
use device_abstraction_stack.Machine.Monad.{Outcome, ok, err, unsupported}
use device_abstraction_stack.Spi.Prescaler.{select_prescaler, prescaler_from, divider}

-- The result of trying the exponents from `exponent` on: the first one whose rate is admissible, or
-- `DAS_ERROR_UNSUPPORTED` when that rate is 0 or no divider is large enough.
abbrev pub Selected : ℕ → ℕ → ℕ → ℕ → Outcome (ℕ × ℕ) → Type 0
Selected left exponent kernel_hz requested_hz r =
    ((e : ℕ) × (exponent ≤ e)
      × (e < exponent + left)
      × (kernel_hz / divider e ≤ requested_hz)
      × ((f : ℕ) → exponent ≤ f → f < e → requested_hz < kernel_hz / divider f)
      × (((r ≡ ok (e, kernel_hz / divider e)) × (1 ≤ kernel_hz / divider e))
          ⊎ ((r ≡ err unsupported) × (kernel_hz / divider e ≡ 0))))
    ⊎ ((r ≡ err unsupported)
        × ((f : ℕ) → exponent ≤ f → f < exponent + left → requested_hz < kernel_hz / divider f))

prescaler_from-Selected :
    (left exponent kernel_hz requested_hz : ℕ)
    → Selected left exponent kernel_hz requested_hz
        (prescaler_from left exponent kernel_hz requested_hz)
unfolding prescaler_from
prescaler_from-Selected zero exponent kernel_hz requested_hz =
    inr (refl, λ f h k. absurd (omega arith))
prescaler_from-Selected (suc left) exponent kernel_hz requested_hz =
    elim (Bool-cases (leb (kernel_hz / divider exponent) requested_hz)) [
      | inl slow ↦ rw slow (
          inl (
            exponent,
            omega arith,
            omega arith,
            ground arith,
            (λ f h k. absurd (omega arith)),
            first,
          ))
      | inr fast ↦
          rw fast (skip fast (prescaler_from-Selected left (exponent + 1) kernel_hz requested_hz))
    ]
  where
    rate : ℕ
    rate = kernel_hz / divider exponent

    first :
        let answer : Outcome (ℕ × ℕ) = if rate == 0 then err unsupported else ok (exponent, rate) in
        ((answer ≡ ok (exponent, rate)) × (1 ≤ rate)) ⊎ ((answer ≡ err unsupported) × (rate ≡ 0))
    first = elim (Bool-cases (rate == 0)) [
      | inl none ↦ inr (ground arith, ground arith)
      | inr some_rate ↦ inl (ground arith, ground arith)
    ]

    covered :
        (e : ℕ)
        → leb (kernel_hz / divider exponent) requested_hz ≡ false
        → ((f : ℕ) → exponent + 1 ≤ f → f < e → requested_hz < kernel_hz / divider f)
        → (f : ℕ) → exponent ≤ f
        → f < e
        → requested_hz < kernel_hz / divider f
    covered e fast above f h k = elim (Bool-cases (exponent == f)) [
      | inl same ↦ let eq : exponent ≡ f = ground arith in rw (← eq) (ground arith)
      | inr other ↦ above f (ground arith) k
    ]

    skip :
        leb (kernel_hz / divider exponent) requested_hz ≡ false
        → Selected left
            (exponent + 1)
            kernel_hz
            requested_hz
            (prescaler_from left (exponent + 1) kernel_hz requested_hz)
        → Selected
            (suc left)
            exponent
            kernel_hz
            requested_hz
            (prescaler_from left (exponent + 1) kernel_hz requested_hz)
    skip fast (inl (e, lo, hi, slow, above, result)) =
        inl (e, omega arith, omega arith, slow, covered e fast above, result)
    skip fast (inr (result, above)) = inr (
      result,
      λ f h k. covered (exponent + suc left) fast (λ g l m. above g l (omega arith)) f h k,
    )

-- For a running kernel clock and a positive rate, `select_prescaler` always answers: with the
-- smallest of the eight dividers 2, 4, ..., 256 whose rate does not exceed the requested one, and
-- that rate, or, exactly when even the largest divider is too fast or the rate would be 0 Hz, with
-- `DAS_ERROR_UNSUPPORTED`.
pub select_prescaler-Selected :
    (kernel_hz requested_hz : ℕ)
    → 1 ≤ kernel_hz
    → 1 ≤ requested_hz
    → Selected 8 0 kernel_hz requested_hz (select_prescaler kernel_hz requested_hz)
unfolding select_prescaler
select_prescaler-Selected kernel_hz requested_hz h k =
    let running : (kernel_hz == 0 || requested_hz == 0) ≡ false = ground arith in
    rw running (prescaler_from-Selected 8 0 kernel_hz requested_hz)
