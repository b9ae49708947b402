-- ===== src/Clock/Config.antt =====
-- The configurations that the managed clock accepts, and the frequencies that they give.
use device_abstraction_stack.Base.{
  ℕ, ◌*◌, ◌/◌, ◌%◌, Bool, true, false, ◌||◌, Option, none, some, ltb, ◌==◌, ◌!=◌, if◌then◌else◌,
  uint32_max,
}
use device_abstraction_stack.Machine.Monad.{invalid_argument, unsupported, Outcome, ok, err}
use device_abstraction_stack.Clock.Dividers.{core_ahb_divider_bits, apb_divider_bits}
use device_abstraction_stack.Clock.Tree.{Frequencies, hsi_hz}

-- `stm32h755_clock_source_t`, by its values
abbrev pub source_hsi : ℕ
source_hsi = 0

abbrev pub source_hse : ℕ
source_hse = 1

abbrev pub source_hse_bypass : ℕ
source_hse_bypass = 2

-- `stm32h755_clock_config_t`
pub record ClockConfig : Type 0 where
  pub source : ℕ
  pub source_hz : ℕ
  pub use_pll1 : Bool
  pub pll_m : ℕ
  pub pll_n : ℕ
  pub pll_p : ℕ
  pub pll_q : ℕ
  pub pll_r : ℕ
  pub d1_core_divider : ℕ
  pub ahb_divider : ℕ
  pub apb1_divider : ℕ
  pub apb2_divider : ℕ
  pub apb3_divider : ℕ
  pub apb4_divider : ℕ
  pub wait_limit : ℕ

abbrev pub is_none {ℓ} : {A : Type ℓ} → Option A → Bool
is_none none = true
is_none (some a) = false

-- The oscillator that the configuration starts from.
unfoldable pub config_source_hz : ClockConfig → Outcome ℕ
config_source_hz config =
    if config.source == source_hsi
    then ok hsi_hz
    else if config.source == source_hse || config.source == source_hse_bypass
    then (if ltb config.source_hz 4_000_000 || ltb 48_000_000 config.source_hz
        then err invalid_argument
        else ok config.source_hz)
    else err invalid_argument

-- The first check of the PLL parameters, and those of its reference and its VCO.
unfoldable pub pll_invalid : ClockConfig → ℕ → Bool
pll_invalid config source_hz =
    config.pll_m == 0
    || ltb 63 config.pll_m
    || ltb config.pll_n 4
    || ltb 512 config.pll_n
    || config.pll_p == 0
    || ltb 128 config.pll_p
    || config.pll_q == 0
    || ltb 128 config.pll_q
    || config.pll_r == 0
    || ltb 128 config.pll_r
    || source_hz % config.pll_m != 0

unfoldable pub config_system_hz : ClockConfig → ℕ → Outcome ℕ
config_system_hz config source_hz =
    let reference_hz = source_hz / config.pll_m in
    let vco_hz = reference_hz * config.pll_n in
    if config.use_pll1
    then (if pll_invalid config source_hz
        then err invalid_argument
        else if ltb reference_hz 1_000_000 || ltb 16_000_000 reference_hz
        then err invalid_argument
        else if ltb vco_hz 192_000_000 || ltb 836_000_000 vco_hz
        then err invalid_argument
        else ok (vco_hz / config.pll_p))
    else ok source_hz

unfoldable pub dividers_invalid : ClockConfig → ℕ → Bool
dividers_invalid config system_hz =
    is_none (core_ahb_divider_bits config.d1_core_divider)
    || is_none (core_ahb_divider_bits config.ahb_divider)
    || is_none (apb_divider_bits config.apb1_divider)
    || is_none (apb_divider_bits config.apb2_divider)
    || is_none (apb_divider_bits config.apb3_divider)
    || is_none (apb_divider_bits config.apb4_divider)
    || ltb uint32_max system_hz

unfoldable pub divided : ClockConfig → ℕ → Frequencies
divided config system_hz =
    let cm7_hz = system_hz / config.d1_core_divider in
    let ahb_hz = cm7_hz / config.ahb_divider in
    record {
      system_hz = system_hz;
      cm7_hz = cm7_hz;
      cm4_hz = ahb_hz;
      ahb_hz = ahb_hz;
      apb1_hz = ahb_hz / config.apb1_divider;
      apb2_hz = ahb_hz / config.apb2_divider;
      apb3_hz = ahb_hz / config.apb3_divider;
      apb4_hz = ahb_hz / config.apb4_divider;
    }

-- `if (result != DAS_OK) return result;` on values.
abbrev pub bind_outcome {ℓ κ} : {A : Type ℓ} {B : Type κ} → Outcome A → (A → Outcome B) → Outcome B
bind_outcome (ok a) f = f a
bind_outcome (err e) f = err e
bind_outcome Outcome.spinning f = Outcome.spinning

unfoldable pub derive_frequencies : ClockConfig → Outcome Frequencies
derive_frequencies config = bind_outcome (config_source_hz config) λ source_hz.
    bind_outcome (config_system_hz config source_hz) λ system_hz.
      if dividers_invalid config system_hz
      then err invalid_argument
      else ok (divided config system_hz)

unfoldable pub exceeds_envelope : Frequencies → Bool
exceeds_envelope f =
    ltb 400_000_000 f.cm7_hz
    || ltb 200_000_000 f.ahb_hz
    || ltb 100_000_000 f.apb1_hz
    || ltb 100_000_000 f.apb2_hz
    || ltb 100_000_000 f.apb3_hz
    || ltb 100_000_000 f.apb4_hz

unfoldable pub validate_managed_config : Option ClockConfig → Outcome Frequencies
validate_managed_config none = err invalid_argument
validate_managed_config (some config) =
    if config.wait_limit == 0
    then err invalid_argument
    else bind_outcome (derive_frequencies config)
        λ frequencies. if exceeds_envelope frequencies then err unsupported else ok frequencies
