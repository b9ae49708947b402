-- ===== src/Tests/RateRuns.antt =====
-- Dividers, clocks and frame formats at concrete rates.
use device_abstraction_stack.Base.{
  ℕ, ◌+◌, ◌-◌, ◌*◌, ◌^◌, ◌≤◌, ◌<◌, ◌≡◌, ◌⊎◌, inl, refl, arith, true, false, some, min, bit_or,
}
use device_abstraction_stack.Base.Rounding.{Nearest}
use device_abstraction_stack.Api.Uart.{DasUartConfig}
use device_abstraction_stack.Machine.World.{World}
use device_abstraction_stack.Machine.Monad.{M, ok, return}
use device_abstraction_stack.Clock.Dividers.{
  core_ahb_divider_bits, core_ahb_divider_from_bits, apb_divider_bits, apb_divider_from_bits,
}
use device_abstraction_stack.Clock.Tree.{
  Frequencies, stm32h755_clock_get_frequencies, system_frequency_hz, hsi_frequency_hz,
}
use device_abstraction_stack.Clock.Config.{
  ClockConfig, validate_managed_config, source_hse_bypass, source_hsi, derive_frequencies,
  exceeds_envelope, config_source_hz, config_system_hz, pll_invalid, dividers_invalid, divided,
}
use device_abstraction_stack.Clock.Envelope.{core_ahb_divider_roundtrip, apb_divider_roundtrip}
use device_abstraction_stack.Clock.Apply.{
  stm32h755_clock_apply, apply_checked, switch_to_hsi, start_hsi, configure_envelope,
  configure_bus_dividers, configure_source, configure_pll1, switch_to_target, differs,
}
use device_abstraction_stack.Machine.Poll.{wait_mask, wait_field}
use device_abstraction_stack.Clock.Observed.{Observed, clock_apply-Observed}
use device_abstraction_stack.Timer.Dividers.{periodic_dividers, pwm_dividers, pwm_compare, duty_of}
use device_abstraction_stack.Timer.Bounds.{
  periodic_dividers-Nearest, pwm_dividers-Nearest, pwm_compare_bounds, duty_of-pwm_compare,
}
use device_abstraction_stack.Spi.Prescaler.{select_prescaler}
use device_abstraction_stack.Spi.Polled.{each_chunk}
use device_abstraction_stack.Spi.Rate.{Selected, select_prescaler-Selected}
use device_abstraction_stack.Machine.Success.{Returned}
use device_abstraction_stack.Spi.Chunks.{Advances, each_chunk-Returned}
use device_abstraction_stack.Uart.Frame.{
  config_valid, rounded_quotient, word_length, frame_length_bits, with_parity, data_mask_of,
}
use device_abstraction_stack.Uart.Format.{
  Cr1Documented, data_mask_of-init, rounded_quotient-Nearest,
}
use device_abstraction_stack.Tests.Board.{board, fresh}

-- 480 MHz is too fast, 400 MHz from an 8 MHz input is the largest that is managed.
abbrev full_speed : ClockConfig
full_speed = record {
  source = source_hse_bypass;
  source_hz = 8_000_000;
  use_pll1 = true;
  pll_m = 1;
  pll_n = 100;
  pll_p = 2;
  pll_q = 4;
  pll_r = 4;
  d1_core_divider = 1;
  ahb_divider = 2;
  apb1_divider = 2;
  apb2_divider = 2;
  apb3_divider = 2;
  apb4_divider = 2;
  wait_limit = 1000;
}

abbrev full_speed_clocks : Frequencies
full_speed_clocks = record {
  system_hz = 400_000_000;
  cm7_hz = 400_000_000;
  cm4_hz = 200_000_000;
  ahb_hz = 200_000_000;
  apb1_hz = 100_000_000;
  apb2_hz = 100_000_000;
  apb3_hz = 100_000_000;
  apb4_hz = 100_000_000;
}

-- The reset clock, HSI.
abbrev reset_speed : ClockConfig
reset_speed = record full_speed {
  source = source_hsi;
  use_pll1 = false;
  ahb_divider = 1;
  apb1_divider = 1;
  apb2_divider = 1;
  apb3_divider = 1;
  apb4_divider = 1;
}

applied : (stm32h755_clock_apply ⦃p = board⦄ (some reset_speed) fresh).0 ≡ ok tt
unfolding stm32h755_clock_apply apply_checked switch_to_hsi start_hsi configure_envelope
    configure_bus_dividers configure_source configure_pll1 switch_to_target differs wait_mask
    wait_field stm32h755_clock_get_frequencies system_frequency_hz hsi_frequency_hz
    core_ahb_divider_from_bits apb_divider_from_bits validate_managed_config derive_frequencies
    exceeds_envelope config_source_hz config_system_hz pll_invalid dividers_invalid divided
    core_ahb_divider_bits apb_divider_bits
applied = refl

sixty_four : core_ahb_divider_bits 64 ≡ some 12
unfolding core_ahb_divider_bits
sixty_four = refl

eight : apb_divider_bits 8 ≡ some 6
unfolding apb_divider_bits
eight = refl

core_ahb_divider_roundtrip_example : core_ahb_divider_from_bits 12 ≡ 64
core_ahb_divider_roundtrip_example = core_ahb_divider_roundtrip 64 12 sixty_four

apb_divider_roundtrip_example : apb_divider_from_bits 6 ≡ 8
apb_divider_roundtrip_example = apb_divider_roundtrip 8 6 eight

clock_apply-Observed_example :
    (f : Frequencies) × (validate_managed_config (some reset_speed) ≡ ok f)
    × (Observed ⦃p = board⦄ reset_speed f
        (stm32h755_clock_apply ⦃p = board⦄ (some reset_speed) fresh))
clock_apply-Observed_example = clock_apply-Observed ⦃p = board⦄ reset_speed fresh applied

periodic_dividers-Nearest_example :
    (autoreload : ℕ) × (periodic_dividers 200_000_000 3 ≡ ok (0, autoreload))
    × (autoreload < 2 ^ 32)
    × (Nearest 200_000_000 3 (autoreload + 1))
periodic_dividers-Nearest_example =
    periodic_dividers-Nearest 200_000_000 3 (omega arith) (omega arith) (omega arith)

pwm_dividers-Nearest_example :
    (prescaler : ℕ) × (autoreload : ℕ) × (pwm_dividers 200_000_000 50 ≡ ok (prescaler, autoreload))
    × (prescaler < 2 ^ 16)
    × (autoreload < 2 ^ 16)
    × (autoreload ≡ 0 ⊎ Nearest 200_000_000 (50 * (prescaler + 1)) (autoreload + 1))
pwm_dividers-Nearest_example =
    pwm_dividers-Nearest 200_000_000 50 (omega arith) (omega arith) (omega arith)

pwm_compare_bounds_example :
    (pwm_compare 65536 999 ≤ 0xffff)
    × (pwm_compare 65536 999 ≤ 65536)
    × (pwm_compare 65536 0 ≡ 0)
    × (pwm_compare 65536 1000 ≡ min 65536 0xffff)
pwm_compare_bounds_example = pwm_compare_bounds 65536 999 (omega arith)

duty_of-pwm_compare_example : duty_of (pwm_compare 1234 567) 1234 ≡ 567
duty_of-pwm_compare_example = duty_of-pwm_compare 1234 567 (omega arith) (omega arith) (omega arith)

select_prescaler-Selected_example :
    Selected 8 0 64_000_000 9_000_000 (select_prescaler 64_000_000 9_000_000)
select_prescaler-Selected_example =
    select_prescaler-Selected 64_000_000 9_000_000 (omega arith) (omega arith)

-- A routine that always succeeds, and the offset as what is done.
nothing : ℕ → ℕ → M ⦃p = board⦄ (Unit {0})
nothing offset count = return ⦃p = board⦄ tt

abbrev Reached : ℕ → World board → Type 0
Reached offset w = offset ≤ 100_000

steps : Advances ⦃p = board⦄ Reached 100_000 nothing
unfolding nothing
steps offset count w a b c d = inl (refl, c)

each_chunk-Returned_example :
    Returned ⦃p = board⦄ (Reached 100_000) (each_chunk ⦃p = board⦄ 100_000 nothing 100_000 0 fresh)
each_chunk-Returned_example =
    each_chunk-Returned ⦃p = board⦄ Reached 100_000 nothing steps fresh (omega arith)

rounded_quotient-Nearest_example :
    Nearest 100_000_000 115_200 (rounded_quotient 100_000_000 115_200)
rounded_quotient-Nearest_example =
    rounded_quotient-Nearest 100_000_000 115_200 (omega arith) (omega arith) (omega arith)

-- Seven data bits with odd parity and one stop bit.
abbrev seven_odd : DasUartConfig
seven_odd = record { baud_rate = 115_200; data_bits = 7; parity = 2; stop_bits = 1 }

seven_odd_valid : config_valid (some seven_odd) ≡ true
unfolding config_valid
seven_odd_valid = refl

documented : Cr1Documented board
documented = record { ue = refl; re = refl; te = refl; ps = refl; pce = refl; m0 = refl; m1 = refl }

data_mask_of-init_example :
    (cr1 : ℕ) × (word_length ⦃p = board⦄ (frame_length_bits seven_odd) ≡ some cr1)
    × (data_mask_of ⦃p = board⦄ (bit_or (with_parity ⦃p = board⦄ seven_odd cr1) 0x1) ≡ 2 ^ 7 - 1)
data_mask_of-init_example = data_mask_of-init ⦃p = board⦄ seven_odd documented seven_odd_valid
