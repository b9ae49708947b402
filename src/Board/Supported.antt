-- ===== src/Board/Supported.antt =====
-- The profiles of the board, against the frequencies that it announces and the managed clock.
use device_abstraction_stack.Base.{
  ℕ, ◌≡◌, ◌⊎◌, inl, inr, ◌∙◌, refl, sym, arith, Bool-cases, true, not, Option, none, some, ◌==◌,
}
use device_abstraction_stack.Machine.Platform.{Platform}
use device_abstraction_stack.Machine.World.{World}
use device_abstraction_stack.Machine.Monad.{M, Outcome, ok, unsupported, fail_if, fail}
use device_abstraction_stack.Machine.Success.{Succeeds, and_then-Succeeds}
use device_abstraction_stack.Clock.Tree.{Frequencies, stm32h755_clock_get_frequencies}
use device_abstraction_stack.Clock.Dividers.{core_ahb_divider_bits, apb_divider_bits}
use device_abstraction_stack.Clock.Config.{
  ClockConfig, validate_managed_config, derive_frequencies, exceeds_envelope, config_source_hz,
  config_system_hz, pll_invalid, dividers_invalid, divided, is_none,
}
use device_abstraction_stack.Clock.Apply.{stm32h755_clock_apply}
use device_abstraction_stack.Clock.Observed.{Observed, clock_apply-Observed}
use device_abstraction_stack.Power.{stm32h755_power_configure_direct_smps}
use device_abstraction_stack.Board.Profiles.{
  build_profile, base_profile, pll_profile, is_among, das_clock_frequency_supported,
  das_clock_set_frequency, das_clock_get_frequency, apply_profile,
}

-- A frequency is announced as supported exactly when there is a profile for it.
pub supported-build_profile :
    (frequency_hz : ℕ)
    → das_clock_frequency_supported frequency_hz ≡ not (is_none (build_profile frequency_hz))
unfolding das_clock_frequency_supported is_among build_profile
supported-build_profile frequency_hz = ground arith

-- The configuration is valid, runs at the frequency, and is live on HSI.
abbrev Valid : ℕ → ClockConfig → Type 0
Valid frequency_hz config =
    (config.source_hz ≡ 0)
    × ((f : Frequencies) × (validate_managed_config (some config) ≡ ok f)
        × (f.system_hz ≡ frequency_hz))

-- Either no profile has the frequency, or its profile is valid.
abbrev pub Profiled : ℕ → Option ClockConfig → Type 0
Profiled frequency_hz r =
    (r ≡ none) ⊎ ((config : ClockConfig) × (r ≡ some config) × Valid frequency_hz config)

-- A profile with the PLL, at the multiplier and the divider of AHB.
valid_profile :
    (frequency_hz : ℕ) (config : ClockConfig) (f : Frequencies)
    → config.source_hz ≡ 0
    → validate_managed_config (some config) ≡ ok f
    → f.system_hz ≡ frequency_hz
    → build_profile frequency_hz ≡ some config
    → Profiled frequency_hz (build_profile frequency_hz)
valid_profile frequency_hz config f live valid same found =
    inr (config, found, (live, (f, valid, same)))

-- Every profile is a valid managed configuration on HSI, and the system frequency derived from it is
-- exactly the requested one.
pub build_profile-Profiled : (frequency_hz : ℕ) → Profiled frequency_hz (build_profile frequency_hz)
unfolding build_profile validate_managed_config derive_frequencies exceeds_envelope config_source_hz
    config_system_hz pll_invalid dividers_invalid divided core_ahb_divider_bits apb_divider_bits
build_profile-Profiled frequency_hz = elim (Bool-cases (frequency_hz == 64_000_000)) [
  | inl a ↦
      let same : frequency_hz ≡ 64_000_000 = ground arith in
      rw same (
        valid_profile 64_000_000 base_profile (divided base_profile 64_000_000) refl refl refl refl)
  | inr a ↦ elim (Bool-cases (frequency_hz == 200_000_000)) [
    | inl b ↦
        let same : frequency_hz ≡ 200_000_000 = ground arith in
        rw same (
          valid_profile 200_000_000 (pll_profile 50 1) (divided (pll_profile 50 1) 200_000_000) refl
            refl refl refl)
    | inr b ↦ elim (Bool-cases (frequency_hz == 300_000_000)) [
      | inl c ↦
          let same : frequency_hz ≡ 300_000_000 = ground arith in
          rw same (
            valid_profile 300_000_000 (pll_profile 75 2) (divided (pll_profile 75 2) 300_000_000)
              refl refl refl refl)
      | inr c ↦ elim (Bool-cases (frequency_hz == 400_000_000)) [
        | inl d ↦
            let same : frequency_hz ≡ 400_000_000 = ground arith in
            rw same (
              valid_profile 400_000_000 (pll_profile 100 2)
                (divided (pll_profile 100 2) 400_000_000) refl refl refl refl)
        | inr d ↦ rw (a, b, c, d) (inl refl)
      ]
    ]
  ]
]

ok-injective : {A : Type 0} {a b : A} → ok a ≡ ok b → a ≡ b
ok-injective e = ground arith

paired : {A B : Type 0} (r : A × B) (a : A) (b : B) → r.0 ≡ a → b ≡ r.1 → r ≡ (a, b)
paired r a b e f = rw (← e, f) refl

module _ ⦃p : Platform⦄ where
  -- A call that read the frequency of the system last, and found it to be `frequency_hz`.
  abbrev pub Reached : ℕ → Outcome (Unit {0}) × World p → Type 0
  Reached frequency_hz r = (w : World p) × (das_clock_get_frequency true w ≡ (ok frequency_hz, r.1))

  Observed-Reached :
      (frequency_hz : ℕ) (config : ClockConfig) (f : Frequencies) (r : Outcome (Unit {0}) × World p)
      → config.source_hz ≡ 0
      → f.system_hz ≡ frequency_hz
      → Observed config f r
      → Reached frequency_hz r
  unfolding das_clock_get_frequency
  Observed-Reached frequency_hz config f r live same (w, found, last) =
      let whole : stm32h755_clock_get_frequencies 0 w ≡ (ok f, r.1) =
        paired (stm32h755_clock_get_frequencies 0 w) (ok f) r.1 (rw (← live) found)
          (rw (← live) last) in
      (w, rw (whole, same) refl)

  apply_profile-Reached :
      (frequency_hz : ℕ) (config : ClockConfig) (w : World p)
      → Valid frequency_hz config
      → Succeeds (Reached frequency_hz) (apply_profile config w)
  unfolding apply_profile
  apply_profile-Reached frequency_hz config w (live, (f, valid, same)) =
      and_then-Succeeds (Reached frequency_hz)
        (stm32h755_power_configure_direct_smps config.wait_limit w) _
        λ a w1 e1 b k.
          let (g, found, seen) = clock_apply-Observed config w1 k in
          let same_f : f ≡ g = ok-injective (sym valid ∙ found) in
          Observed-Reached frequency_hz config g (stm32h755_clock_apply (some config) w1) live
            (rw (← same_f) same) seen

  -- A supported frequency, reached.
  abbrev Set : ℕ → Outcome (Unit {0}) × World p → Type 0
  Set frequency_hz r = (das_clock_frequency_supported frequency_hz ≡ true) × Reached frequency_hz r

  profile_applied :
      (frequency_hz : ℕ) (w : World p)
      → Profiled frequency_hz (build_profile frequency_hz)
      → let chosen : M (Unit {0}) = elim (build_profile frequency_hz) [
        | none ↦ fail unsupported
        | some config ↦ apply_profile config
      ] in
        Succeeds (Set frequency_hz) (chosen w)
  profile_applied frequency_hz w (inl lost) = rw lost λ b k. absurd (ground arith)
  profile_applied frequency_hz w (inr (config, found, valid)) =
      let supported : das_clock_frequency_supported frequency_hz ≡ true =
        rw (supported-build_profile frequency_hz, found) refl in
      rw found λ b k. (supported, apply_profile-Reached frequency_hz config w valid b k)

  -- When `das_clock_set_frequency` returns `DAS_OK`, the frequency is a supported one, and the last
  -- thing that the call did was to read the clock tree, in which the system frequency was exactly the
  -- requested one.
  pub das_clock_set_frequency-Reached :
      (frequency_hz : ℕ) (w : World p)
      → (das_clock_set_frequency frequency_hz w).0 ≡ ok tt
      → (das_clock_frequency_supported frequency_hz ≡ true)
        × Reached frequency_hz (das_clock_set_frequency frequency_hz w)
  unfolding das_clock_set_frequency
  das_clock_set_frequency-Reached frequency_hz w h =
      and_then-Succeeds (Set frequency_hz) (fail_if (not p.cmsis.core.core_cm7) unsupported w) _
        (λ a w1 e1. profile_applied frequency_hz w1 (build_profile-Profiled frequency_hz)) tt h
