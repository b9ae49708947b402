-- ===== src/Gpio/Configured.antt =====
-- The settings that `das_gpio_configure` leaves.
use device_abstraction_stack.Base.{
  ℕ, ◌*◌, ◌/◌, ◌%◌, ◌≡◌, inl, inr, ◌∙◌, refl, ap, arith, Bool-cases, true, false, some, ◌||◌, ◌==◌,
  bit_or, has_bits, if◌then◌else◌,
}
use device_abstraction_stack.Base.Fields.{bit_and_or}
use device_abstraction_stack.Api.Gpio.{
  DasGpioPin, DasGpioConfig, das_gpio_mode_output, das_gpio_output_open_drain,
  das_gpio_mode_alternate,
}
use device_abstraction_stack.Machine.Reg.{Reg, Barrier}
use device_abstraction_stack.Machine.Platform.{Platform}
use device_abstraction_stack.Machine.World.{World}
use device_abstraction_stack.Machine.Monad.{ok}
use device_abstraction_stack.Gpio.Pins.{gpio_port, resolve_pin, config_valid, gpio_clock_mask}
use device_abstraction_stack.Gpio.Setup.{
  bsrr_word, with_field, with_bit, enable_port, write_latch, select_alternate, program_pin,
  configure_checked, das_gpio_configure,
}
use device_abstraction_stack.Gpio.Storage.{Setting, reg_of, same_setting, Storage}

port_of : (pin : DasGpioPin) → resolve_pin pin ≡ true → gpio_port pin.port ≡ true
unfolding resolve_pin
port_of pin h = ground arith

module _ ⦃p : Platform⦄ (st : Storage p) where
  -- What `modify_reg` does to the hardware.
  abbrev changed : Setting → ℕ → (ℕ → ℕ) → p.State → p.State
  changed r n f s = p.write (reg_of r n) (f (p.read (reg_of r n) s).0) (p.read (reg_of r n) s).1

  -- One setting of an enabled port is changed.
  modified :
      (q r : Setting) (n : ℕ) (f : ℕ → ℕ) (s : p.State)
      → st.clocked n s ≡ true
      → (st.content q n (changed r n f s)
          ≡ (if same_setting q r then f (st.content r n s) else st.content q n s))
        × (st.clocked n (changed r n f s) ≡ true)
  modified q r n f s c =
      let (v, s1) = p.read (reg_of r n) s in
      let (kept, on) = st.reads q n (reg_of r n) s in
      let (stored, still) = st.writes q n r n (f v) s1 in
      (ground (arith, kept, on, stored, st.value r n s), still ∙ on ∙ c)

  -- The settings of a pin, in the words of the port before and after.
  pub record Configured (pin : DasGpioPin) (config : DasGpioConfig) (before after : p.State)
      : Type 0 where
    pub moder :
        st.content Setting.moder pin.port after
        ≡ with_field 3 (pin.pin * 2) config.mode (st.content Setting.moder pin.port before)
    pub ospeedr :
        st.content Setting.ospeedr pin.port after
        ≡ with_field 3 (pin.pin * 2) config.speed (st.content Setting.ospeedr pin.port before)
    pub pupdr :
        st.content Setting.pupdr pin.port after
        ≡ with_field 3 (pin.pin * 2) config.pull (st.content Setting.pupdr pin.port before)
    pub otyper :
        st.content Setting.otyper pin.port after
        ≡ with_bit pin.pin
            (config.output_type == das_gpio_output_open_drain)
            (st.content Setting.otyper pin.port before)
    pub afr : st.content (Setting.afr (pin.pin / 8)) pin.port after ≡ (
        if config.mode == das_gpio_mode_alternate
        then with_field 0xf
            (pin.pin % 8 * 4)
            config.alternate
            (st.content (Setting.afr (pin.pin / 8)) pin.port before)
        else st.content (Setting.afr (pin.pin / 8)) pin.port before)

  enabled :
      (n : ℕ) (w : World p)
      → gpio_port n ≡ true
      → (gpio_clock_mask n == 0) ≡ false
      → (u : World p) × (enable_port n w ≡ (ok tt, u))
        × (st.clocked n u.hw ≡ true)
        × ((q : Setting) → st.content q n u.hw ≡ st.content q n w.hw)
  unfolding enable_port gpio_clock_mask
  enabled n w v m =
      let (old, s1) = p.read Reg.rcc_ahb4enr w.hw in
      let mask = p.cmsis.rcc.gpio_en n in
      let s2 = p.write Reg.rcc_ahb4enr (bit_or old mask) s1 in
      let s3 = (p.read Reg.rcc_ahb4enr s2).1 in
      let some_mask : (mask == 0) ≡ false = ground (arith, v, m) in
      let on : has_bits (bit_or old mask) mask ≡ true =
        ground (arith, bit_and_or mask old mask (omega arith)) in
      rw v (
        record w { hw = p.barrier Barrier.dsb s3 },
        refl,
        (st.barriers Setting.moder n Barrier.dsb s3).1
            ∙ (st.reads Setting.moder n Reg.rcc_ahb4enr s2).1
            ∙ (st.clock_writes Setting.moder n (bit_or old mask) s1).1
            ∙ on,
        λ q.
            (st.barriers q n Barrier.dsb s3).0
            ∙ (st.reads q n Reg.rcc_ahb4enr s2).0
            ∙ (st.clock_writes q n (bit_or old mask) s1).0
            ∙ (st.reads q n Reg.rcc_ahb4enr w.hw).0,
      )

  latched :
      (pin : DasGpioPin) (config : DasGpioConfig) (w : World p)
      → st.clocked pin.port w.hw ≡ true
      → (u : World p) × (write_latch pin config w ≡ (ok tt, u))
        × (st.clocked pin.port u.hw ≡ true)
        × ((q : Setting) → st.content q pin.port u.hw ≡ st.content q pin.port w.hw)
  unfolding write_latch
  latched pin config w c =
      elim (Bool-cases
        (config.mode == das_gpio_mode_output || config.mode == das_gpio_mode_alternate)) [
          | inl driven ↦
              let word = bsrr_word pin.pin config.initial_high in
              rw driven (
                record w { hw = p.write (Reg.gpio_bsrr pin.port) word w.hw },
                refl,
                (st.latch_writes Setting.moder pin.port pin.port word w.hw).1 ∙ c,
                λ q. (st.latch_writes q pin.port pin.port word w.hw).0,
              )
          | inr other ↦ rw other (w, refl, c, λ q. refl)
        ]

  -- The setting that selects the alternate function.
  alternate_selected :
      (pin : DasGpioPin) (config : DasGpioConfig) (w : World p)
      → st.clocked pin.port w.hw ≡ true
      → let afr = Setting.afr (pin.pin / 8) in
        (u : World p) × (select_alternate pin config w ≡ (ok tt, u))
        × (st.clocked pin.port u.hw ≡ true)
        × (st.content Setting.moder pin.port u.hw ≡ st.content Setting.moder pin.port w.hw)
        × (st.content Setting.otyper pin.port u.hw ≡ st.content Setting.otyper pin.port w.hw)
        × (st.content Setting.ospeedr pin.port u.hw ≡ st.content Setting.ospeedr pin.port w.hw)
        × (st.content Setting.pupdr pin.port u.hw ≡ st.content Setting.pupdr pin.port w.hw)
        × (st.content afr pin.port u.hw ≡ (
            if config.mode == das_gpio_mode_alternate
            then with_field 0xf (pin.pin % 8 * 4) config.alternate (st.content afr pin.port w.hw)
            else st.content afr pin.port w.hw))
  unfolding select_alternate
  alternate_selected pin config w c =
      let afr = Setting.afr (pin.pin / 8) in
      let f = with_field 0xf (pin.pin % 8 * 4) config.alternate in
      elim (Bool-cases (config.mode == das_gpio_mode_alternate)) [
        | inr other ↦ rw other (w, refl, c, refl, refl, refl, refl, refl)
        | inl alternate ↦ rw alternate (
          _,
          refl,
          (modified afr afr pin.port f w.hw c).1,
          (modified Setting.moder afr pin.port f w.hw c).0,
          (modified Setting.otyper afr pin.port f w.hw c).0,
          (modified Setting.ospeedr afr pin.port f w.hw c).0,
          (modified Setting.pupdr afr pin.port f w.hw c).0,
          ground (arith, (modified afr afr pin.port f w.hw c).0),
        )
      ]

  -- The three settings that are written one after the other.
  outputs_changed :
      (i n : ℕ) (f g h : ℕ → ℕ) (s : p.State)
      → st.clocked n s ≡ true
      → let u =
          changed Setting.pupdr n h (changed Setting.ospeedr n g (changed Setting.otyper n f s)) in
        (st.content Setting.otyper n u ≡ f (st.content Setting.otyper n s))
        × (st.content Setting.ospeedr n u ≡ g (st.content Setting.ospeedr n s))
        × (st.content Setting.pupdr n u ≡ h (st.content Setting.pupdr n s))
        × (st.content Setting.moder n u ≡ st.content Setting.moder n s)
        × (st.content (Setting.afr i) n u ≡ st.content (Setting.afr i) n s)
        × (st.clocked n u ≡ true)
  outputs_changed i n f g h s c =
      let first = λ (q : Setting). modified q Setting.otyper n f s c in
      let s2 = changed Setting.otyper n f s in
      let c2 = (first Setting.moder).1 in
      let second = λ (q : Setting). modified q Setting.ospeedr n g s2 c2 in
      let s3 = changed Setting.ospeedr n g s2 in
      let c3 = (second Setting.moder).1 in
      let third = λ (q : Setting). modified q Setting.pupdr n h s3 c3 in
      (
        (third Setting.otyper).0 ∙ (second Setting.otyper).0 ∙ (first Setting.otyper).0,
        (third Setting.ospeedr).0 ∙ (second Setting.ospeedr).0 ∙ ap g (first Setting.ospeedr).0,
        (third Setting.pupdr).0 ∙ ap h ((second Setting.pupdr).0 ∙ (first Setting.pupdr).0),
        (third Setting.moder).0 ∙ (second Setting.moder).0 ∙ (first Setting.moder).0,
        (third (Setting.afr i)).0 ∙ (second (Setting.afr i)).0 ∙ (first (Setting.afr i)).0,
        (third Setting.moder).1,
      )

  programmed :
      (pin : DasGpioPin) (config : DasGpioConfig) (w : World p)
      → st.clocked pin.port w.hw ≡ true
      → (u : World p) × (program_pin pin config w ≡ (ok tt, u)) × Configured pin config w.hw u.hw
  unfolding program_pin
  programmed pin config w c =
      let n = pin.port in
      let shift = pin.pin * 2 in
      let drain = with_bit pin.pin (config.output_type == das_gpio_output_open_drain) in
      let speed = with_field 3 shift config.speed in
      let pull = with_field 3 shift config.pull in
      let mode = with_field 3 shift config.mode in
      let (w1, latch, c1, k1) = latched pin config w c in
      let (otyper4, ospeedr4, pupdr4, moder4, afr4, c4) =
        outputs_changed (pin.pin / 8) n drain speed pull w1.hw c1 in
      let s4 =
        changed Setting.pupdr n pull
          (changed Setting.ospeedr n speed (changed Setting.otyper n drain w1.hw)) in
      let (w5, chosen, c5, moder5, otyper5, ospeedr5, pupdr5, afr5) =
        alternate_selected pin config (record w1 { hw = s4 }) c4 in
      let last = λ (q : Setting). modified q Setting.moder n mode w5.hw c5 in
      let s6 = changed Setting.moder n mode w5.hw in
      let quiet = λ (q : Setting). (st.barriers q n Barrier.dsb s6).0 in
      let afr = Setting.afr (pin.pin / 8) in
      rw (latch, chosen)
        (
          record w5 { hw = p.barrier Barrier.dsb s6 },
          refl,
          record {
            moder =
                quiet Setting.moder
                ∙ (last Setting.moder).0
                ∙ ap mode (moder5 ∙ moder4 ∙ k1 Setting.moder);
            otyper =
                quiet Setting.otyper
                ∙ (last Setting.otyper).0
                ∙ otyper5
                ∙ otyper4
                ∙ ap drain (k1 Setting.otyper);
            ospeedr =
                quiet Setting.ospeedr
                ∙ (last Setting.ospeedr).0
                ∙ ospeedr5
                ∙ ospeedr4
                ∙ ap speed (k1 Setting.ospeedr);
            pupdr =
                quiet Setting.pupdr
                ∙ (last Setting.pupdr).0
                ∙ pupdr5
                ∙ pupdr4
                ∙ ap pull (k1 Setting.pupdr);
            afr = quiet afr ∙ (last afr).0 ∙ afr5 ∙ rw (afr4, k1 afr) refl;
          },
        )

  -- On ports that store their settings, configuring a pin with a valid configuration succeeds, the clock
  -- of its port having been enabled, and the words of the port are those of `Configured`.
  pub das_gpio_configure-Configured :
      (pin : DasGpioPin) (config : DasGpioConfig) (w : World p)
      → resolve_pin pin ≡ true
      → (gpio_clock_mask pin.port == 0) ≡ false
      → config_valid (some config) ≡ true
      → (u : World p) × (das_gpio_configure pin (some config) w ≡ (ok tt, u))
        × Configured pin config w.hw u.hw
  unfolding das_gpio_configure configure_checked
  das_gpio_configure-Configured pin config w a b c =
      let (w1, on, clock, k) = enabled pin.port w (port_of pin a) b in
      let (w2, done, d) = programmed pin config w1 clock in
      let shift = pin.pin * 2 in
      rw (a, b, c, on, done)
        (
          w2,
          refl,
          record {
            moder = d.moder ∙ ap (with_field 3 shift config.mode) (k Setting.moder);
            ospeedr = d.ospeedr ∙ ap (with_field 3 shift config.speed) (k Setting.ospeedr);
            pupdr = d.pupdr ∙ ap (with_field 3 shift config.pull) (k Setting.pupdr);
            otyper =
                d.otyper
                ∙ ap (with_bit pin.pin (config.output_type == das_gpio_output_open_drain))
                    (k Setting.otyper);
            afr = d.afr ∙ rw (k (Setting.afr (pin.pin / 8))) refl;
          },
        )
