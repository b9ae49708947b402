-- ===== src/I2c/Readback.antt =====
-- The timing word that `das_i2c_init` writes, as `das_i2c_get_frequency` reads it back.
use device_abstraction_stack.Base.{
  ℕ, ◌⊎◌, ◌+◌, ◌-◌, ◌*◌, ◌/◌, ◌%◌, ◌^◌, ◌≤◌, ◌<◌, ◌≡◌, ◌∙◌, inl, inr, refl, arith, ap, u32, bit_and,
  bit_or, ◌<<<◌,
}
use native.Mathlib.Nat.{mul-div_cancel, one-le-pow}
use device_abstraction_stack.Base.Rounding.{quotient_le}
use device_abstraction_stack.Base.Bits.{bit_or_sum, bit_and_low}
use device_abstraction_stack.Base.Fields.{bit_and_shift}
use device_abstraction_stack.Machine.Platform.{Platform}
use device_abstraction_stack.Machine.Monad.{ok, err, unsupported}
use device_abstraction_stack.I2c.Timing.{Fields, calculate_timing, packed, timing_word, divider_of}
use device_abstraction_stack.I2c.Rate.{Fitting, Offered, calculate_fields-Fitted}

-- The places of the fields of TIMINGR in the reference manual.
pub record TimingrDocumented (p : Platform) : Type 0 where
  pub presc : p.cmsis.i2c.timingr_presc ≡ 0xf000_0000
  pub presc_pos : p.cmsis.i2c.timingr_presc_pos ≡ 28
  pub scldel_pos : p.cmsis.i2c.timingr_scldel_pos ≡ 20
  pub sdadel_pos : p.cmsis.i2c.timingr_sdadel_pos ≡ 16
  pub sclh : p.cmsis.i2c.timingr_sclh ≡ 0xff00
  pub sclh_pos : p.cmsis.i2c.timingr_sclh_pos ≡ 8
  pub scll : p.cmsis.i2c.timingr_scll ≡ 0xff
  pub scll_pos : p.cmsis.i2c.timingr_scll_pos ≡ 0

-- The field of `w` bits at position `k` of a word.
field : (k w x : ℕ) → bit_and x ((2 ^ w - 1) * 2 ^ k) / 2 ^ k ≡ x / 2 ^ k % 2 ^ w
field k w x =
    bit_and_shift k x ((2 ^ w - 1) * 2 ^ k)
    ∙ ap (λ (t : ℕ). bit_and (x / 2 ^ k) t)
        (mul-div_cancel (2 ^ w - 1) (one-le-pow k 2 (omega arith)))
    ∙ bit_and_low w (x / 2 ^ k)

-- A field that lies below all the others so far is added.
joined : (k q x r : ℕ) → x ≡ q * 2 ^ k → r < 2 ^ k → bit_or x r ≡ x + r
joined k q x r same h = rw same (bit_or_sum k q r h)

word_sum :
    (presc scldel sdadel sclh scll : ℕ)
    → scldel < 2 ^ 4
    → sdadel < 2 ^ 4
    → sclh < 2 ^ 8
    → scll < 2 ^ 8
    → bit_or
        (bit_or
          (bit_or (bit_or (presc * 2 ^ 28) (scldel * 2 ^ 20)) (sdadel * 2 ^ 16))
          (sclh * 2 ^ 8))
        scll
      ≡ presc * 2 ^ 28 + scldel * 2 ^ 20 + sdadel * 2 ^ 16 + sclh * 2 ^ 8 + scll
word_sum presc scldel sdadel sclh scll h k l m =
    let a = presc * 2 ^ 28 in
    let b = a + scldel * 2 ^ 20 in
    let c = b + sdadel * 2 ^ 16 in
    let d = c + sclh * 2 ^ 8 in
    rw
      (
        joined 28 presc a (scldel * 2 ^ 20) refl (omega arith),
        joined 20 (presc * 2 ^ 8 + scldel) b (sdadel * 2 ^ 16) (omega arith) (omega arith),
        joined 16 ((presc * 2 ^ 8 + scldel) * 2 ^ 4 + sdadel) c (sclh * 2 ^ 8) (omega arith)
            (omega arith),
      )
      (joined 8 (((presc * 2 ^ 8 + scldel) * 2 ^ 4 + sdadel) * 2 ^ 8 + sclh) d scll (omega arith)
        (omega arith))

small_product : (a b : ℕ) → a ≤ 16 → b ≤ 512 → u32 (a * b) ≡ a * b
small_product a b h k = let bound : a * b ≤ 16 * 512 = grind arith in omega arith

module _ ⦃p : Platform⦄ where
  timing_word_sum :
      (kernel_hz bus_hz : ℕ) (f : Fields)
      → TimingrDocumented p
      → Fitting kernel_hz bus_hz f
      → timing_word f
        ≡ f.presc * 2 ^ 28 + f.scldel * 2 ^ 20 + f.sdadel * 2 ^ 16 + f.scl * 2 ^ 8 + f.scl
  unfolding timing_word
  timing_word_sum kernel_hz bus_hz f d fits =
      let a : f.presc <<< 28 ≡ f.presc * 2 ^ 28 = omega (arith, fits.presc) in
      let b : f.scldel <<< 20 ≡ f.scldel * 2 ^ 20 = omega (arith, fits.scldel) in
      let c : f.sdadel <<< 16 ≡ f.sdadel * 2 ^ 16 = omega (arith, fits.sdadel) in
      let h : f.scl <<< 8 ≡ f.scl * 2 ^ 8 = omega (arith, fits.scl) in
      let l : f.scl <<< 0 ≡ f.scl = omega (arith, fits.scl) in
      rw (d.presc_pos, d.scldel_pos, d.sdadel_pos, d.sclh_pos, d.scll_pos, a, b, c, h, l)
        (word_sum f.presc f.scldel f.sdadel f.scl f.scl fits.scldel fits.sdadel fits.scl fits.scl)

  divider_of_lem :
      (x : ℕ)
      → TimingrDocumented p
      → divider_of x ≡ (x / 2 ^ 28 % 2 ^ 4 + 1) * (x / 2 ^ 8 % 2 ^ 8 + 1 + (x % 2 ^ 8 + 1))
  unfolding divider_of
  divider_of_lem x d =
      let presc = x / 2 ^ 28 % 2 ^ 4 in
      let sclh = x / 2 ^ 8 % 2 ^ 8 in
      let a : u32 (presc + 1) ≡ presc + 1 = omega arith in
      let b : u32 (sclh + 1) ≡ sclh + 1 = omega arith in
      let c : u32 (x / 2 ^ 0 % 2 ^ 8 + 1) ≡ x % 2 ^ 8 + 1 = omega arith in
      let e : u32 (sclh + 1 + (x % 2 ^ 8 + 1)) ≡ sclh + 1 + (x % 2 ^ 8 + 1) = omega arith in
      rw
        (
          d.presc,
          d.presc_pos,
          d.sclh,
          d.sclh_pos,
          d.scll,
          d.scll_pos,
          field 28 4 x,
          field 8 8 x,
          field 0 8 x,
          a,
          b,
          c,
          e,
        )
        (small_product (presc + 1) (sclh + 1 + (x % 2 ^ 8 + 1)) (omega arith) (omega arith))

  pub divider_of-timing_word :
      (kernel_hz bus_hz : ℕ) (f : Fields)
      → TimingrDocumented p
      → Fitting kernel_hz bus_hz f
      → divider_of (timing_word f) ≡ (f.presc + 1) * (2 * (f.scl + 1))
  divider_of-timing_word kernel_hz bus_hz f d fits =
      let sum = timing_word_sum kernel_hz bus_hz f d fits in
      let x = timing_word f in
      let presc : x / 2 ^ 28 % 2 ^ 4 ≡ f.presc =
        omega (arith, sum, fits.presc, fits.scldel, fits.sdadel, fits.scl) in
      let sclh : x / 2 ^ 8 % 2 ^ 8 ≡ f.scl =
        omega (arith, sum, fits.presc, fits.scldel, fits.sdadel, fits.scl) in
      let scll : x % 2 ^ 8 ≡ f.scl = omega (arith, sum, fits.scl) in
      let same : f.scl + 1 + (f.scl + 1) ≡ 2 * (f.scl + 1) = omega arith in
      divider_of_lem x d ∙ rw (presc, sclh, scll, same) refl

  -- For a running kernel clock and 100 kHz or 400 kHz, `calculate_timing` reports that the rate is not
  -- supported, or packs fields that fit: the divider that `das_i2c_get_frequency` reads out of the word
  -- is a whole period in ticks, and the rate that it reports is not above the requested one.
  pub calculate_timing-readback :
      (kernel_hz bus_hz : ℕ)
      → TimingrDocumented p
      → 0 < kernel_hz
      → kernel_hz < 2 ^ 32
      → Offered bus_hz
      → (calculate_timing kernel_hz bus_hz ≡ err unsupported)
        ⊎ ((f : Fields) × (calculate_timing kernel_hz bus_hz ≡ ok (timing_word f))
            × Fitting kernel_hz bus_hz f
            × (divider_of (timing_word f) ≡ (f.presc + 1) * (2 * (f.scl + 1)))
            × (kernel_hz / divider_of (timing_word f) ≤ bus_hz))
  unfolding calculate_timing packed
  calculate_timing-readback kernel_hz bus_hz d h k o =
      elim (calculate_fields-Fitted kernel_hz bus_hz h k o) [
        | inl none_fits ↦ rw none_fits (inl refl)
        | inr (f, same, fits) ↦
            let whole = divider_of-timing_word kernel_hz bus_hz f d fits in
            let some_ticks : 0 < (f.presc + 1) * (2 * (f.scl + 1)) = grind arith in
            rw same (
              inr (
                f,
                refl,
                fits,
                whole,
                rw whole (
                    quotient_le kernel_hz ((f.presc + 1) * (2 * (f.scl + 1))) bus_hz some_ticks
                      (omega (arith, fits.slow_enough))),
              ))
      ]
