-- ===== src/Gpio/Isolated.antt =====
-- A pin is configured without a change to the other pins of its port.
use device_abstraction_stack.Base.{
  ℕ, ◌+◌, ◌-◌, ◌*◌, ◌/◌, ◌%◌, ◌^◌, ◌<◌, ◌≡◌, ◌∙◌, refl, ap, arith, Bool, true, false, some, ◌&&◌,
  ◌==◌, ltb, leb, if◌then◌else◌, Bool-cases, inl, inr,
}
use device_abstraction_stack.Base.Fields.{bit, power_le}
use device_abstraction_stack.Api.Gpio.{
  DasGpioPin, DasGpioConfig, das_gpio_output_open_drain, das_gpio_mode_alternate,
}
use device_abstraction_stack.Machine.Platform.{Platform}
use device_abstraction_stack.Machine.World.{World}
use device_abstraction_stack.Machine.Monad.{ok}
use device_abstraction_stack.Gpio.Pins.{
  resolve_pin, config_valid, gpio_clock_mask, mode_valid, pull_valid, speed_valid,
  output_type_valid,
}
use device_abstraction_stack.Gpio.Setup.{das_gpio_configure}
use device_abstraction_stack.Gpio.Fields.{bit-with_field, bit-with_bit}
use device_abstraction_stack.Gpio.Storage.{Setting, Storage}
use device_abstraction_stack.Gpio.Configured.{das_gpio_configure-Configured}

-- The numbers of a valid configuration fit into their fields.
fitting :
    (config : DasGpioConfig)
    → config_valid (some config) ≡ true
    → (config.mode < 4) × (config.speed < 4) × (config.pull < 4)
unfolding config_valid mode_valid pull_valid speed_valid output_type_valid
fitting config v = (ground arith, ground arith, ground arith)

alternate_fits :
    (config : DasGpioConfig)
    → config_valid (some config) ≡ true
    → (config.mode == das_gpio_mode_alternate) ≡ true
    → config.alternate < 16
unfolding config_valid mode_valid pull_valid speed_valid output_type_valid
alternate_fits config v a = ground arith

pin_below : (pin : DasGpioPin) → resolve_pin pin ≡ true → pin.pin < 16
unfolding resolve_pin
pin_below pin v = ground arith

-- Whether a bit belongs to the field of `w` bits at `k`.
abbrev pub within : ℕ → ℕ → ℕ → Bool
within k w i = leb k i && ltb i (k + w)

module _ ⦃p : Platform⦄ (st : Storage p) where
  -- On ports that store their settings, configuring a valid pin with a valid configuration succeeds, and
  -- gives each bit of MODER, OSPEEDR, PUPDR, OTYPER and the alternate function word of the pin: the bits
  -- of the pin's own fields are those of the configuration, and all other bits are what they were.
  pub das_gpio_configure-bits :
      (pin : DasGpioPin) (config : DasGpioConfig) (w : World p) (i : ℕ)
      → resolve_pin pin ≡ true
      → (gpio_clock_mask pin.port == 0) ≡ false
      → config_valid (some config) ≡ true
      → i < 32
      → let k = pin.pin * 2 in
        let a = pin.pin % 8 * 4 in
        let afr = Setting.afr (pin.pin / 8) in
        (u : World p) × (das_gpio_configure pin (some config) w ≡ (ok tt, u))
        × (bit (st.content Setting.moder pin.port u.hw) i ≡ (
            if within k 2 i
            then bit config.mode (i - k)
            else bit (st.content Setting.moder pin.port w.hw) i))
        × (bit (st.content Setting.ospeedr pin.port u.hw) i ≡ (
            if within k 2 i
            then bit config.speed (i - k)
            else bit (st.content Setting.ospeedr pin.port w.hw) i))
        × (bit (st.content Setting.pupdr pin.port u.hw) i ≡ (
            if within k 2 i
            then bit config.pull (i - k)
            else bit (st.content Setting.pupdr pin.port w.hw) i))
        × (bit (st.content Setting.otyper pin.port u.hw) i ≡ (
            if i == pin.pin
            then (if config.output_type == das_gpio_output_open_drain then 1 else 0)
            else bit (st.content Setting.otyper pin.port w.hw) i))
        × (bit (st.content afr pin.port u.hw) i ≡ (
            if (config.mode == das_gpio_mode_alternate) && within a 4 i
            then bit config.alternate (i - a)
            else bit (st.content afr pin.port w.hw) i))
  das_gpio_configure-bits pin config w i valid clock_known config_is_valid h =
      let (u, done, c) =
        das_gpio_configure-Configured st pin config w valid clock_known config_is_valid in
      let (mode_fits, speed_fits, pull_fits) = fitting config config_is_valid in
      let low = pin_below pin valid in
      let k = pin.pin * 2 in
      let a = pin.pin % 8 * 4 in
      let room : (2 ^ 2 - 1) * 2 ^ k < 2 ^ 32 = omega (arith, power_le k 30 (omega arith)) in
      let afr_room : (2 ^ 4 - 1) * 2 ^ a < 2 ^ 32 = omega (arith, power_le a 28 (omega arith)) in
      let old = λ (q : Setting). st.content q pin.port w.hw in
      (
        u,
        done,
        ap (λ (t : ℕ). bit t i) c.moder
            ∙ bit-with_field 2 k config.mode (old Setting.moder) i mode_fits room h,
        ap (λ (t : ℕ). bit t i) c.ospeedr
            ∙ bit-with_field 2 k config.speed (old Setting.ospeedr) i speed_fits room h,
        ap (λ (t : ℕ). bit t i) c.pupdr
            ∙ bit-with_field 2 k config.pull (old Setting.pupdr) i pull_fits room h,
        ap (λ (t : ℕ). bit t i) c.otyper
            ∙ bit-with_bit pin.pin (old Setting.otyper) i
                (config.output_type == das_gpio_output_open_drain) (omega arith) h,
        ap (λ (t : ℕ). bit t i) c.afr ∙ elim (Bool-cases (config.mode == das_gpio_mode_alternate)) [
          | inl alternate ↦ rw alternate (
              bit-with_field 4 a config.alternate (old (Setting.afr (pin.pin / 8))) i
                (alternate_fits config config_is_valid alternate) afr_room h)
          | inr other ↦ rw other refl
        ],
      )
