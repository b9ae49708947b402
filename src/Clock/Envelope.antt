-- ===== src/Clock/Envelope.antt =====
-- What a validated clock configuration guarantees, and what `stm32h755_clock_apply` does with it.
use device_abstraction_stack.Base.{
  ℕ, ◌*◌, ◌/◌, ◌%◌, ◌^◌, ◌≤◌, ◌<◌, ◌≡◌, ◌⊎◌, arith, true, false, some,
}
use device_abstraction_stack.Clock.Dividers.{
  core_ahb_divider_bits, core_ahb_divider_from_bits, apb_divider_bits, apb_divider_from_bits,
}
use device_abstraction_stack.Clock.Tree.{Frequencies}
use device_abstraction_stack.Clock.Config.{ClockConfig}
use device_abstraction_stack.Clock.Division.{Encodable, Derived}

-- A core or AHB divider that has register bits is the one that is derived from these bits.
pub core_ahb_divider_roundtrip :
    (divider bits : ℕ)
    → core_ahb_divider_bits divider ≡ some bits
    → core_ahb_divider_from_bits bits ≡ divider
unfolding core_ahb_divider_bits core_ahb_divider_from_bits
core_ahb_divider_roundtrip divider bits h = ground arith

-- An APB divider that has register bits is the one that is derived from these bits.
pub apb_divider_roundtrip :
    (divider bits : ℕ) → apb_divider_bits divider ≡ some bits → apb_divider_from_bits bits ≡ divider
unfolding apb_divider_bits apb_divider_from_bits
apb_divider_roundtrip divider bits h = ground arith

-- The managed envelope.
pub record InEnvelope (f : Frequencies) : Type 0 where
  pub cm7 : f.cm7_hz ≤ 400_000_000
  pub ahb : f.ahb_hz ≤ 200_000_000
  pub apb1 : f.apb1_hz ≤ 100_000_000
  pub apb2 : f.apb2_hz ≤ 100_000_000
  pub apb3 : f.apb3_hz ≤ 100_000_000
  pub apb4 : f.apb4_hz ≤ 100_000_000

-- The input and the frequency of a PLL in its wide range, from an oscillator.
pub record PllInRange (config : ClockConfig) (source_hz system_hz : ℕ) : Type 0 where
  pub exact : source_hz % config.pll_m ≡ 0
  pub reference : (1_000_000 ≤ source_hz / config.pll_m) × (source_hz / config.pll_m ≤ 16_000_000)
  pub vco :
      (192_000_000 ≤ source_hz / config.pll_m * config.pll_n)
      × (source_hz / config.pll_m * config.pll_n ≤ 836_000_000)
  pub output : system_hz ≡ source_hz / config.pll_m * config.pll_n / config.pll_p

-- A configuration and the frequencies that the hardware will have under it.
pub record Managed (config : ClockConfig) (f : Frequencies) : Type 0 where
  pub envelope : InEnvelope f
  pub polls : 0 < config.wait_limit
  pub source_hz : ℕ
  pub oscillator : (4_000_000 ≤ source_hz) × (source_hz ≤ 64_000_000)
  pub system :
      ((config.use_pll1 ≡ true) × PllInRange config source_hz f.system_hz)
      ⊎ ((config.use_pll1 ≡ false) × (f.system_hz ≡ source_hz))
  pub representable : f.system_hz < 2 ^ 32
  pub encodable : Encodable config
  pub clocks : Derived config f
