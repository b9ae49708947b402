-- ===== src/Gpio/Fields.antt =====
-- The single bits of the words that configure a pin.
use device_abstraction_stack.Base.{
  ℕ, ◌+◌, ◌-◌, ◌*◌, ◌^◌, ◌≤◌, ◌<◌, ◌≡◌, arith, Bool, true, false, ◌&&◌, ◌==◌, ltb, leb,
  if◌then◌else◌, ◌<<<◌,
}
use device_abstraction_stack.Base.Rounding.{mul_mono}
use device_abstraction_stack.Base.Fields.{bit, bit-field_update, bit-set, bit-cleared, power_fits}
use device_abstraction_stack.Gpio.Setup.{with_field, with_bit}

-- A field of `w` bits at `k` is replaced: its bits become those of the value, and every other bit of
-- the register stays.
pub bit-with_field :
    (w k v reg i : ℕ)
    → v < 2 ^ w
    → (2 ^ w - 1) * 2 ^ k < 2 ^ 32
    → i < 32
    → bit (with_field (2 ^ w - 1) k v reg) i
      ≡ (if leb k i && ltb i (k + w) then bit v (i - k) else bit reg i)
unfolding with_field
bit-with_field w k v reg i h m l =
    let value_fits : v * 2 ^ k < 2 ^ 32 =
      bounded (mul_mono v (2 ^ w - 1) (2 ^ k) (omega arith)) m in
    let ones : (2 ^ w - 1) <<< k ≡ (2 ^ w - 1) * 2 ^ k = omega arith in
    let value : v <<< k ≡ v * 2 ^ k = omega arith in
    rw (ones, value) (bit-field_update w k v reg i h m l)
  where
    bounded : {a b : ℕ} → a ≤ b → b < 2 ^ 32 → a < 2 ^ 32
    bounded x y = omega arith

-- One bit is set or cleared, and every other bit of the register stays.
pub bit-with_bit :
    (pin reg i : ℕ) (set : Bool)
    → pin < 32
    → i < 32
    → bit (with_bit pin set reg) i ≡ (if i == pin then (if set then 1 else 0) else bit reg i)
unfolding with_bit
bit-with_bit pin reg i true h l =
    let unit : 1 <<< pin ≡ 2 ^ pin = omega (arith, power_fits pin 32 h) in
    rw unit (bit-set pin reg i)
bit-with_bit pin reg i false h l =
    let unit : 1 <<< pin ≡ 2 ^ pin = omega (arith, power_fits pin 32 h) in
    rw unit (bit-cleared pin reg i h l)
