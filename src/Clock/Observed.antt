-- ===== src/Clock/Observed.antt =====
-- What `stm32h755_clock_apply` has checked when it returns.
use device_abstraction_stack.Base.{◌≡◌, inl, inr, sym, ap, ◌∙◌, arith, false, some, not, Bool-cases}
use device_abstraction_stack.Machine.Reg.{Barrier}
use device_abstraction_stack.Machine.Platform.{Platform}
use device_abstraction_stack.Machine.World.{World}
use device_abstraction_stack.Machine.Monad.{Outcome, ok, unsupported, fail_if, lift}
use device_abstraction_stack.Machine.Success.{Succeeds, and_then-Succeeds}
use device_abstraction_stack.Clock.Tree.{Frequencies, stm32h755_clock_get_frequencies}
use device_abstraction_stack.Clock.Config.{ClockConfig, validate_managed_config}
use device_abstraction_stack.Clock.Apply.{
  stm32h755_clock_apply, apply_checked, differs, switch_to_hsi, configure_envelope,
  configure_bus_dividers, configure_source, configure_pll1, switch_to_target,
}

differs-same :
    (observed expected : Frequencies) → differs observed expected ≡ false → observed ≡ expected
unfolding differs
differs-same observed expected h = ground arith

module _ ⦃p : Platform⦄ where
  -- The live clock tree was read last, and had the frequencies `f`.
  abbrev pub Observed : ClockConfig → Frequencies → Outcome (Unit {0}) × World p → Type 0
  Observed config f r =
      (w : World p) × ((stm32h755_clock_get_frequencies config.source_hz w).0 ≡ ok f)
      × (r.1 ≡ (stm32h755_clock_get_frequencies config.source_hz w).1)

  apply_checked-Observed :
      (config : ClockConfig) (f : Frequencies) (w : World p)
      → Succeeds (Observed config f) (apply_checked config f w)
  unfolding apply_checked
  apply_checked-Observed config f w =
      and_then-Succeeds (Observed config f) (switch_to_hsi config.wait_limit w) _ λ a w1 e1.
        and_then-Succeeds (Observed config f) (configure_envelope config.wait_limit w1) _ λ b w2 e2.
          and_then-Succeeds (Observed config f) (configure_bus_dividers config w2) _ λ c w3 e3.
            and_then-Succeeds (Observed config f) (configure_source config w3) _ λ d w4 e4.
              and_then-Succeeds (Observed config f) (configure_pll1 config w4) _ λ e w5 e5.
                and_then-Succeeds (Observed config f) (switch_to_target config w5) _ λ g w6 e6.
                  let synchronised : World p = record w6 {
                    hw = p.barrier Barrier.isb (p.barrier Barrier.dsb w6.hw);
                  } in
                  and_then-Succeeds (Observed config f)
                    (stm32h755_clock_get_frequencies config.source_hz synchronised) _
                    λ observed w7 e7. read_last f synchronised w7 observed e7
    where
      read_last :
          (f : Frequencies) (w w' : World p) (observed : Frequencies)
          → stm32h755_clock_get_frequencies config.source_hz w ≡ (ok observed, w')
          → Succeeds (Observed config f) (fail_if (differs observed f) unsupported w')
      read_last f w w' observed e b k = elim (Bool-cases (differs observed f)) [
        | inl other ↦ absurd (ground arith)
        | inr same ↦
            let equal : observed ≡ f = differs-same observed f same in
            (w, ap (λ r. r.0) e ∙ ap ok equal, rw same (sym (ap (λ r. r.1) e)))
      ]

  -- When `stm32h755_clock_apply` returns `DAS_OK`, the configuration was a valid managed one, and
  -- the last thing that the call did was to read the live clock tree: it had exactly the
  -- frequencies that the validation had derived.
  pub clock_apply-Observed :
      (config : ClockConfig) (w : World p)
      → (stm32h755_clock_apply (some config) w).0 ≡ ok tt
      → (f : Frequencies) × (validate_managed_config (some config) ≡ ok f)
        × (Observed config f (stm32h755_clock_apply (some config) w))
  unfolding stm32h755_clock_apply
  clock_apply-Observed config w h =
      and_then-Succeeds Applied (fail_if (not p.cmsis.core.core_cm7) unsupported w) _
        (λ a w1 e1.
          and_then-Succeeds Applied (lift (validate_managed_config (some config)) w1) _
            (λ f w2 e2 b k. (f, ap (λ r. r.0) e2, apply_checked-Observed config f w2 b k)))
        tt h
    where
      Applied : Outcome (Unit {0}) × World p → Type 0
      Applied r =
          (f : Frequencies) × (validate_managed_config (some config) ≡ ok f) × (Observed config f r)
