-- ===== src/Clock/Division.antt =====
-- The dividers of the clock tree and the frequencies behind them.
use device_abstraction_stack.Base.{ℕ, ◌/◌, ◌^◌, ◌<◌, ◌≡◌, ◌⊎◌, refl, arith, false}
use device_abstraction_stack.Clock.Dividers.{core_ahb_divider_bits, apb_divider_bits}
use device_abstraction_stack.Clock.Tree.{Frequencies}
use device_abstraction_stack.Clock.Config.{ClockConfig, is_none, dividers_invalid, divided}

-- The dividers of the reference manual for D1CPRE and HPRE, and for the APB prescalers.
abbrev pub IsCoreAhbDivider : ℕ → Type 0
IsCoreAhbDivider d =
    (d ≡ 1) ⊎ (d ≡ 2) ⊎ (d ≡ 4) ⊎ (d ≡ 8) ⊎ (d ≡ 16) ⊎ (d ≡ 64) ⊎ (d ≡ 128) ⊎ (d ≡ 256) ⊎ (d ≡ 512)

abbrev pub IsApbDivider : ℕ → Type 0
IsApbDivider d = (d ≡ 1) ⊎ (d ≡ 2) ⊎ (d ≡ 4) ⊎ (d ≡ 8) ⊎ (d ≡ 16)

pub record Encodable (config : ClockConfig) : Type 0 where
  pub d1_core : IsCoreAhbDivider config.d1_core_divider
  pub ahb : IsCoreAhbDivider config.ahb_divider
  pub apb1 : IsApbDivider config.apb1_divider
  pub apb2 : IsApbDivider config.apb2_divider
  pub apb3 : IsApbDivider config.apb3_divider
  pub apb4 : IsApbDivider config.apb4_divider

-- Each clock is its parent by its divider: CM7 from the system clock, AHB, which also clocks CM4, from
-- CM7, and the four APB clocks from AHB.
pub record Derived (config : ClockConfig) (f : Frequencies) : Type 0 where
  pub cm7 : f.cm7_hz ≡ f.system_hz / config.d1_core_divider
  pub ahb : f.ahb_hz ≡ f.cm7_hz / config.ahb_divider
  pub cm4 : f.cm4_hz ≡ f.ahb_hz
  pub apb1 : f.apb1_hz ≡ f.ahb_hz / config.apb1_divider
  pub apb2 : f.apb2_hz ≡ f.ahb_hz / config.apb2_divider
  pub apb3 : f.apb3_hz ≡ f.ahb_hz / config.apb3_divider
  pub apb4 : f.apb4_hz ≡ f.ahb_hz / config.apb4_divider

core_ahb_divider_bits-known :
    (d : ℕ) → is_none (core_ahb_divider_bits d) ≡ false → IsCoreAhbDivider d
unfolding core_ahb_divider_bits
core_ahb_divider_bits-known d h = ground arith

apb_divider_bits-known : (d : ℕ) → is_none (apb_divider_bits d) ≡ false → IsApbDivider d
unfolding apb_divider_bits
apb_divider_bits-known d h = ground arith

pub dividers_invalid-Encodable :
    (config : ClockConfig) (hz : ℕ)
    → dividers_invalid config hz ≡ false
    → Encodable config × (hz < 2 ^ 32)
unfolding dividers_invalid
dividers_invalid-Encodable config hz h = (
  record {
    d1_core = core_ahb_divider_bits-known config.d1_core_divider (ground arith);
    ahb = core_ahb_divider_bits-known config.ahb_divider (ground arith);
    apb1 = apb_divider_bits-known config.apb1_divider (ground arith);
    apb2 = apb_divider_bits-known config.apb2_divider (ground arith);
    apb3 = apb_divider_bits-known config.apb3_divider (ground arith);
    apb4 = apb_divider_bits-known config.apb4_divider (ground arith);
  },
  ground arith,
)

pub divided-Derived : (config : ClockConfig) (hz : ℕ) → Derived config (divided config hz)
unfolding divided
divided-Derived config hz = record {
  cm7 = refl;
  ahb = refl;
  cm4 = refl;
  apb1 = refl;
  apb2 = refl;
  apb3 = refl;
  apb4 = refl;
}
