-- ===== src/I2c/Offered.antt =====
-- The initialisation of the controller at the rates that the driver offers.
use device_abstraction_stack.Base.{
  ℕ, ◌+◌, ◌*◌, ◌/◌, ◌^◌, ◌<◌, ◌≡◌, ◌⊎◌, inl, inr, refl, arith, Bool-cases, true, false, some,
  bit_and, has_bits, ◌==◌, ◌||◌,
}
use native.Mathlib.Nat.{mul-div_cancel}
use device_abstraction_stack.Machine.Reg.{Reg}
use device_abstraction_stack.Machine.Platform.{Platform}
use device_abstraction_stack.Machine.World.{World}
use device_abstraction_stack.Machine.Monad.{
  M, Outcome, ok, err, not_ready, and_then, fail_if, return, ◌>>◌,
}
use device_abstraction_stack.I2c.Timing.{
  Fields, ceil_div_u64, presc_from, scldel_ticks_of, sdadel_ticks_of, fields_from, calculate_fields,
  calculate_timing, packed, timing_word, divider_of,
}
use device_abstraction_stack.I2c.Setup.{
  i2c1, das_i2c_init, init_checked, config_valid, resolve_i2c, enable_peripheral_clock,
  select_kernel_clock, hsi_frequency_hz, program_i2c,
}
use device_abstraction_stack.I2c.Wait.{clear_status}
use device_abstraction_stack.I2c.Rate.{Fitting, Offered}
use device_abstraction_stack.I2c.Readback.{TimingrDocumented, divider_of-timing_word}

-- The frequencies of HSI.
abbrev pub Hsi : ℕ → Type 0
Hsi kernel_hz =
    (kernel_hz ≡ 64_000_000)
    ⊎ (kernel_hz ≡ 32_000_000)
    ⊎ (kernel_hz ≡ 16_000_000)
    ⊎ (kernel_hz ≡ 8_000_000)

-- Fields of the right sizes whose rate is the requested one.
abbrev Exact : ℕ → ℕ → Type 0
Exact kernel_hz bus_hz =
    (f : Fields) × (calculate_fields kernel_hz bus_hz ≡ ok f)
    × Fitting kernel_hz bus_hz f
    × (bus_hz * ((f.presc + 1) * (2 * (f.scl + 1))) ≡ kernel_hz)

exactly :
    (kernel_hz bus_hz presc scldel sdadel scl : ℕ)
    → 0 < bus_hz
    → presc < 2 ^ 4
    → scldel < 2 ^ 4
    → sdadel < 2 ^ 4
    → scl < 2 ^ 8
    → bus_hz * ((presc + 1) * (2 * (scl + 1))) ≡ kernel_hz
    → calculate_fields kernel_hz bus_hz
      ≡ ok (record { presc = presc; scldel = scldel; sdadel = sdadel; scl = scl })
    → Exact kernel_hz bus_hz
exactly kernel_hz bus_hz presc scldel sdadel scl o a b c d whole same =
    let slack : 0 < bus_hz * (2 * (presc + 1)) = grind arith in
    (
      record { presc = presc; scldel = scldel; sdadel = sdadel; scl = scl },
      same,
      record {
        presc = a;
        scldel = b;
        sdadel = c;
        scl = d;
        slow_enough = omega arith;
        fast_enough = omega arith;
      },
      whole,
    )

calculate_fields-Exact :
    (kernel_hz bus_hz : ℕ) → Hsi kernel_hz → Offered bus_hz → Exact kernel_hz bus_hz
unfolding calculate_fields presc_from ceil_div_u64 fields_from scldel_ticks_of sdadel_ticks_of
calculate_fields-Exact kernel_hz bus_hz (inl h) (inl b) =
    rw (h, b)
      (exactly 64_000_000 100_000 1 15 4 159 (omega arith) (omega arith) (omega arith) (omega arith)
        (omega arith) refl refl)
calculate_fields-Exact kernel_hz bus_hz (inl h) (inr b) =
    rw (h, b)
      (exactly 64_000_000 400_000 0 7 7 79 (omega arith) (omega arith) (omega arith) (omega arith)
        (omega arith) refl refl)
calculate_fields-Exact kernel_hz bus_hz (inr (inl h)) (inl b) =
    rw (h, b)
      (exactly 32_000_000 100_000 0 15 4 159 (omega arith) (omega arith) (omega arith) (omega arith)
        (omega arith) refl refl)
calculate_fields-Exact kernel_hz bus_hz (inr (inl h)) (inr b) =
    rw (h, b)
      (exactly 32_000_000 400_000 0 3 4 39 (omega arith) (omega arith) (omega arith) (omega arith)
        (omega arith) refl refl)
calculate_fields-Exact kernel_hz bus_hz (inr (inr (inl h))) (inl b) =
    rw (h, b)
      (exactly 16_000_000 100_000 0 7 2 79 (omega arith) (omega arith) (omega arith) (omega arith)
        (omega arith) refl refl)
calculate_fields-Exact kernel_hz bus_hz (inr (inr (inl h))) (inr b) =
    rw (h, b)
      (exactly 16_000_000 400_000 0 1 2 19 (omega arith) (omega arith) (omega arith) (omega arith)
        (omega arith) refl refl)
calculate_fields-Exact kernel_hz bus_hz (inr (inr (inr h))) (inl b) =
    rw (h, b)
      (exactly 8_000_000 100_000 0 3 1 39 (omega arith) (omega arith) (omega arith) (omega arith)
        (omega arith) refl refl)
calculate_fields-Exact kernel_hz bus_hz (inr (inr (inr h))) (inr b) =
    rw (h, b)
      (exactly 8_000_000 400_000 0 0 1 9 (omega arith) (omega arith) (omega arith) (omega arith)
        (omega arith) refl refl)

module _ ⦃p : Platform⦄ where
  -- At each frequency of HSI, `calculate_timing` succeeds for both rates, and the rate that
  -- `das_i2c_get_frequency` computes from the word is exactly the requested one.
  pub calculate_timing-exact :
      (kernel_hz bus_hz : ℕ)
      → TimingrDocumented p
      → Hsi kernel_hz
      → Offered bus_hz
      → (timing : ℕ) × (calculate_timing kernel_hz bus_hz ≡ ok timing)
        × (kernel_hz / divider_of timing ≡ bus_hz)
  unfolding calculate_timing packed
  calculate_timing-exact kernel_hz bus_hz d h o =
      let (f, same, fits, whole) = calculate_fields-Exact kernel_hz bus_hz h o in
      let divider = (f.presc + 1) * (2 * (f.scl + 1)) in
      let some_ticks : 0 < divider = grind arith in
      let read_back = divider_of-timing_word kernel_hz bus_hz f d fits in
      rw same (timing_word f, refl, rw (read_back, ← whole) (mul-div_cancel bus_hz some_ticks))

  hsi_frequency_hz-Hsi :
      (w : World p)
      → (kernel_hz : ℕ) × (u : World p) × (hsi_frequency_hz w ≡ (ok kernel_hz, u)) × Hsi kernel_hz
  unfolding hsi_frequency_hz
  hsi_frequency_hz-Hsi w =
      let field = bit_and (p.read Reg.rcc_cr w.hw).0 p.cmsis.rcc.cr_hsidiv in
      let u : World p = record w { hw = (p.read Reg.rcc_cr w.hw).1 } in
      elim (Bool-cases (field == p.cmsis.rcc.cr_hsidiv_2)) [
        | inl half ↦ rw half (32_000_000, u, refl, inr (inl refl))
        | inr a ↦ rw a (elim (Bool-cases (field == p.cmsis.rcc.cr_hsidiv_4)) [
          | inl quarter ↦ rw quarter (16_000_000, u, refl, inr (inr (inl refl)))
          | inr b ↦ rw b (elim (Bool-cases (field == p.cmsis.rcc.cr_hsidiv_8)) [
            | inl eighth ↦ rw eighth (8_000_000, u, refl, inr (inr (inr refl)))
            | inr c ↦ rw c (64_000_000, u, refl, inl refl)
          ])
        ])
      ]

  select_kernel_clock-Hsi :
      (w : World p)
      → ((u : World p) × (select_kernel_clock w ≡ (err not_ready, u)))
        ⊎ ((kernel_hz : ℕ) × (u : World p) × (select_kernel_clock w ≡ (ok kernel_hz, u))
            × Hsi kernel_hz)
  unfolding select_kernel_clock
  select_kernel_clock-Hsi w =
      elim (Bool-cases (has_bits (p.read Reg.rcc_cr w.hw).0 p.cmsis.rcc.cr_hsirdy)) [
        | inr stopped ↦ rw stopped (inl (_, refl))
        | inl running ↦ rw running (selected (hsi_frequency_hz-Hsi _))
      ]
    where
      selected :
          {r : Outcome ℕ × World p}
          → ((kernel_hz : ℕ) × (u : World p) × (r ≡ (ok kernel_hz, u)) × Hsi kernel_hz)
          → let checked : M ℕ = λ _. and_then r (λ hz. fail_if (hz == 0) not_ready >> return hz) in
            ((u : World p) × (checked w ≡ (err not_ready, u)))
            ⊎ ((kernel_hz : ℕ) × (u : World p) × (checked w ≡ (ok kernel_hz, u)) × Hsi kernel_hz)
      selected (kernel_hz, u, same, h) =
          let positive : (kernel_hz == 0) ≡ false = ground arith in
          rw (same, positive) (inr (kernel_hz, u, refl, h))

  -- Initialising the controller at a rate that the driver offers succeeds, or reports that HSI is not
  -- running: no rate is found to be unsupported.
  pub das_i2c_init-Offered :
      (bus_hz : ℕ) (w : World p)
      → Offered bus_hz
      → let answer = (das_i2c_init i2c1 (some (record { frequency_hz = bus_hz })) w).0 in
        (answer ≡ ok tt) ⊎ (answer ≡ err not_ready)
  unfolding das_i2c_init resolve_i2c init_checked config_valid program_i2c clear_status
      enable_peripheral_clock calculate_timing packed
  das_i2c_init-Offered bus_hz w o =
      let some_rate : (bus_hz == 0) ≡ false = ground arith in
      let valid : (bus_hz == 100_000 || bus_hz == 400_000) ≡ true = ground arith in
      rw (some_rate, valid)
        (elim (select_kernel_clock-Hsi (enable_peripheral_clock w).1) [
          | inl (u, stopped) ↦ rw stopped (inr refl)
          | inr (kernel_hz, u, same, h) ↦
              let (f, fields, fits, whole) = calculate_fields-Exact kernel_hz bus_hz h o in
              rw (same, fields) (inl refl)
        ])
