-- ===== src/Board/Profiles.antt =====
-- The clock profiles of src/board/nucleo_h755zi_q/clock.c, and time.c.
use device_abstraction_stack.Base.{
  ℕ, Bool, true, false, not, ◌&&◌, Option, none, some, List, [], ◌∷◌, ltb, ◌==◌, ◌!=◌,
  if◌then◌else◌, zero, suc,
}
use device_abstraction_stack.Machine.Platform.{Platform}
use device_abstraction_stack.Machine.World.{systick_now_ms}
use device_abstraction_stack.Machine.Monad.{
  M, invalid_argument, unsupported, return, fail, fail_if, ◌>>=◌, ◌>>◌,
}
use device_abstraction_stack.Clock.Config.{ClockConfig, source_hsi}
use device_abstraction_stack.Clock.Tree.{stm32h755_clock_get_frequencies}
use device_abstraction_stack.Clock.Apply.{stm32h755_clock_apply}
use device_abstraction_stack.Power.{stm32h755_power_configure_direct_smps}
use device_abstraction_stack.Time.{das_cortex_m_systick_configure, das_time_set_source}

abbrev pub board_wait_limit : ℕ
board_wait_limit = 1_000_000

abbrev pub supported_frequencies_hz : List ℕ
supported_frequencies_hz = 64_000_000 ∷ 200_000_000 ∷ 300_000_000 ∷ 400_000_000 ∷ []

abbrev pub supported_count : ℕ
supported_count = 4

-- What `build_profile` starts from.
abbrev pub base_profile : ClockConfig
base_profile = record {
  source = source_hsi;
  source_hz = 0;
  use_pll1 = false;
  pll_m = 1;
  pll_n = 4;
  pll_p = 2;
  pll_q = 2;
  pll_r = 2;
  d1_core_divider = 1;
  ahb_divider = 1;
  apb1_divider = 1;
  apb2_divider = 1;
  apb3_divider = 1;
  apb4_divider = 1;
  wait_limit = board_wait_limit;
}

-- The three profiles with the PLL differ in its multiplier and in the divider of AHB.
abbrev pub pll_profile : ℕ → ℕ → ClockConfig
pll_profile pll_n ahb_divider = record base_profile {
  use_pll1 = true;
  pll_m = 8;
  pll_n = pll_n;
  pll_p = 2;
  pll_q = 4;
  pll_r = 2;
  ahb_divider = ahb_divider;
  apb1_divider = 2;
  apb2_divider = 2;
  apb3_divider = 2;
  apb4_divider = 2;
}

-- `false` is `none`; `config` is the address of a local and never null.
unfoldable pub build_profile : ℕ → Option ClockConfig
build_profile frequency_hz =
    if frequency_hz == 64_000_000
    then some base_profile
    else if frequency_hz == 200_000_000
    then some (pll_profile 50 1)
    else if frequency_hz == 300_000_000
    then some (pll_profile 75 2)
    else if frequency_hz == 400_000_000
    then some (pll_profile 100 2)
    else none

abbrev take_frequencies : ℕ → List ℕ → List ℕ
take_frequencies zero fs = []
take_frequencies (suc n) [] = []
take_frequencies (suc n) (f ∷ fs) = f ∷ take_frequencies n fs

-- The count, and what is stored from `frequencies_hz` on, if that pointer is given.
unfoldable pub das_clock_get_supported_frequencies : Bool → ℕ → ℕ × List ℕ
das_clock_get_supported_frequencies frequencies_hz capacity =
    if frequencies_hz && capacity != 0
    then (
      supported_count,
      take_frequencies (if ltb capacity supported_count then capacity else supported_count)
          supported_frequencies_hz,
    )
    else (supported_count, [])

-- The loop of `das_clock_frequency_supported`.
unfoldable pub is_among : ℕ → List ℕ → Bool
is_among frequency_hz [] = false
is_among frequency_hz (f ∷ fs) =
    let rest = is_among frequency_hz fs in if f == frequency_hz then true else rest

unfoldable pub das_clock_frequency_supported : ℕ → Bool
das_clock_frequency_supported frequency_hz = is_among frequency_hz supported_frequencies_hz

module _ ⦃p : Platform⦄ where
  unfoldable pub apply_profile : ClockConfig → M (Unit {0})
  apply_profile config = do
    stm32h755_power_configure_direct_smps config.wait_limit
    stm32h755_clock_apply (some config)

  unfoldable pub das_clock_set_frequency : ℕ → M (Unit {0})
  das_clock_set_frequency frequency_hz = do
    fail_if (not p.cmsis.core.core_cm7) unsupported
    elim (build_profile frequency_hz) [
      | none ↦ fail unsupported
      | some config ↦ apply_profile config
    ]

  unfoldable pub das_clock_get_frequency : Bool → M ℕ
  das_clock_get_frequency frequency_hz = do
    fail_if (not frequency_hz) invalid_argument
    frequencies ← stm32h755_clock_get_frequencies 0
    return frequencies.system_hz

  unfoldable pub das_clock_get_core_frequency : Bool → M ℕ
  das_clock_get_core_frequency frequency_hz = do
    fail_if (not frequency_hz) invalid_argument
    frequencies ← stm32h755_clock_get_frequencies 0
    return (if p.cmsis.core.core_cm7 then frequencies.cm7_hz else frequencies.cm4_hz)

  unfoldable pub das_time_init : M (Unit {0})
  das_time_init = do
    core_frequency_hz ← das_clock_get_core_frequency true
    das_cortex_m_systick_configure core_frequency_hz
    das_time_set_source (some systick_now_ms) 0
