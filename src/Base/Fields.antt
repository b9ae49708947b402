-- ===== src/Base/Fields.antt =====
-- The single bits of `&`, `|` and `~`, and the fields of a register.
use Prim.Native.Nat.{
  ℕ, zero, suc, ◌+◌, ◌-◌, ◌*◌, ◌/◌, ◌%◌, ◌^◌, ◌≤◌, ◌<◌, min, max, bit_and, bit_or,
}
use mathlib.Core.Path.{◌≡◌, refl, sym, ap, ◌∙◌}
use mathlib.Core.Logic.{inl, inr}
use mathlib.Core.Bool.{◌&&◌}
use native.Mathlib.Nat.{pow-suc, one-le-pow, pow-le-pow_right, div-eq_of_lt, div-div-eq-div-mul}
use native.Mathlib.Omega.{arith}
use device_abstraction_stack.Base.Tests.{Bool-cases, ◌==◌, ltb, leb, if◌then◌else◌}
use device_abstraction_stack.Base.Word.{bit_not, bit_clear}
use device_abstraction_stack.Base.Bits.{bit_and_step, bit_or_step, bit_and-zero, double_field}

-- The bit at a position.
abbrev pub bit : ℕ → ℕ → ℕ
bit x i = x / 2 ^ i % 2

halved : (i x : ℕ) → x / 2 ^ suc i ≡ x / 2 / 2 ^ i
halved i x =
    ap (λ (t : ℕ). x / t) (omega (arith, pow-suc 2 i)) ∙ sym (div-div-eq-div-mul x 2 (2 ^ i))

next_bit : (i x : ℕ) → bit x (suc i) ≡ bit (x / 2) i
next_bit i x = ap (λ (t : ℕ). t % 2) (halved i x)

half_and : (x y : ℕ) → bit_and x y / 2 ≡ bit_and (x / 2) (y / 2)
half_and x y = omega (arith, bit_and_step x y)

half_or : (x y : ℕ) → bit_or x y / 2 ≡ bit_or (x / 2) (y / 2)
half_or x y = omega (arith, bit_or_step x y)

-- `(x & y) >> k`
pub bit_and_shift : (k x y : ℕ) → bit_and x y / 2 ^ k ≡ bit_and (x / 2 ^ k) (y / 2 ^ k)
bit_and_shift zero x y = rw (unit_quotient x, unit_quotient y) (unit_quotient (bit_and x y))
  where
    unit_quotient : (n : ℕ) → n / 2 ^ 0 ≡ n
    unit_quotient n = omega arith
bit_and_shift (suc k) x y =
    rw (halved k (bit_and x y), halved k x, halved k y, half_and x y)
      (bit_and_shift k (x / 2) (y / 2))

half_field : (k m : ℕ) → m * 2 ^ suc k / 2 ≡ m * 2 ^ k
half_field k m = omega (arith, double_field m k)

-- `x & (m << k)`
pub bit_and_high : (k x m : ℕ) → bit_and x (m * 2 ^ k) ≡ bit_and (x / 2 ^ k) m * 2 ^ k
bit_and_high zero x m = rw (unit_power x, unit_factor m) (sym (unit_factor (bit_and x m)))
  where
    unit_power : (n : ℕ) → n / 2 ^ 0 ≡ n
    unit_power n = omega arith

    unit_factor : (n : ℕ) → n * 2 ^ 0 ≡ n
    unit_factor n = omega arith
bit_and_high (suc k) x m = omega (
  arith,
  bit_and_step x (m * 2 ^ suc k),
  double_field m k,
  double_field (bit_and (x / 2 ^ suc k) m) k,
  ap (λ (t : ℕ). bit_and (x / 2) t) (half_field k m),
  bit_and_high k (x / 2) m,
  ap (λ (t : ℕ). bit_and t m * 2 ^ k) (halved k x),
)

pub bit-and : (i x y : ℕ) → bit (bit_and x y) i ≡ min (bit x i) (bit y i)
bit-and zero x y = omega (arith, bit_and_step x y)
bit-and (suc i) x y =
    rw (next_bit i (bit_and x y), next_bit i x, next_bit i y, half_and x y)
      (bit-and i (x / 2) (y / 2))

pub bit-or : (i x y : ℕ) → bit (bit_or x y) i ≡ max (bit x i) (bit y i)
bit-or zero x y = omega (arith, bit_or_step x y)
bit-or (suc i) x y =
    rw (next_bit i (bit_or x y), next_bit i x, next_bit i y, half_or x y) (bit-or i (x / 2) (y / 2))

complement : (i w x : ℕ) → i < w → x < 2 ^ w → bit (2 ^ w - 1 - x) i ≡ 1 - bit x i
complement i zero x h k = absurd (omega arith)
complement zero (suc w) x h k = ground (arith, pow-suc 2 w)
complement (suc i) (suc w) x h k =
    let half : (2 ^ suc w - 1 - x) / 2 ≡ 2 ^ w - 1 - x / 2 = omega (arith, pow-suc 2 w) in
    rw (next_bit i (2 ^ suc w - 1 - x), next_bit i x, half)
      (complement i w (x / 2) (omega arith) (omega (arith, pow-suc 2 w)))

shifted_bit : (k i v : ℕ) → bit (v * 2 ^ k) i ≡ (if ltb i k then 0 else bit v (i - k))
shifted_bit zero i v = ground arith
shifted_bit (suc k) zero v = ground (arith, double_field v k)
shifted_bit (suc k) (suc i) v =
    let half : v * 2 ^ suc k / 2 ≡ v * 2 ^ k = omega (arith, double_field v k) in
    rw (next_bit i (v * 2 ^ suc k), half) (ground (arith, shifted_bit k i v))

two_positive : 0 < 2
two_positive = omega arith

bit_of_small : (w i v : ℕ) → v < 2 ^ w → w ≤ i → bit v i ≡ 0
bit_of_small w i v h k =
    let gone : v / 2 ^ i ≡ 0 = div-eq_of_lt (omega (arith, pow-le-pow_right two_positive k)) in
    rw gone refl

bit_of_ones : (w i : ℕ) → i < w → bit (2 ^ w - 1) i ≡ 1
bit_of_ones w i h =
    let whole : 2 ^ w - 1 - 0 ≡ 2 ^ w - 1 = omega arith in
    rw (← whole) (
      omega (
        arith,
        complement i w 0 h (one-le-pow w 2 two_positive),
        bit_of_small 0 i 0 (omega arith) (omega arith),
      ))

-- The bits of `1 << k`.
pub bit_of_unit : (k i : ℕ) → bit (2 ^ k) i ≡ (if i == k then 1 else 0)
bit_of_unit k i =
    let whole : 1 * 2 ^ k ≡ 2 ^ k = omega arith in
    rw (← whole, shifted_bit k i 1)
      (elim (Bool-cases (ltb i k)) [
        | inl below ↦ ground arith
        | inr reached ↦ elim (Bool-cases (i == k)) [
          | inl at ↦ let here : i - k ≡ 0 = ground arith in rw here (ground arith)
          | inr above ↦ ground (arith, bit_of_small 1 (i - k) 1 (omega arith) (ground arith))
        ]
      ])

pub power_le : (k w : ℕ) → k ≤ w → 2 ^ k ≤ 2 ^ w
power_le k w h = pow-le-pow_right two_positive h

pub power_fits : (k w : ℕ) → k < w → 2 ^ k < 2 ^ w
power_fits k zero h = absurd (omega arith)
power_fits k (suc w) h =
    let lower : k ≤ w = omega arith in
    let grown : 2 ^ k ≤ 2 ^ w = pow-le-pow_right two_positive lower in
    omega (arith, pow-suc 2 w, one-le-pow w 2 two_positive, grown)

-- `reg | (1 << k)` and `reg & ~(1 << k)` change one bit.
pub bit-set : (k x i : ℕ) → bit (bit_or x (2 ^ k)) i ≡ (if i == k then 1 else bit x i)
bit-set k x i = rw (bit-or i x (2 ^ k), bit_of_unit k i) (ground arith)

pub bit-cleared :
    (k x i : ℕ) → k < 32 → i < 32 → bit (bit_clear x (2 ^ k)) i ≡ (if i == k then 0 else bit x i)
bit-cleared k x i h l =
    rw
      (
        bit-and i x (bit_not (2 ^ k)),
        complement i 32 (2 ^ k) l (power_fits k 32 h),
        bit_of_unit k i,
      )
      (ground arith)

-- A field of `w` bits at position `k` is replaced: `(x & ~(ones << k)) | (v << k)`. Its bits become
-- those of `v`, and every other bit stays.
pub bit-field_update :
    (w k v x i : ℕ)
    → v < 2 ^ w
    → (2 ^ w - 1) * 2 ^ k < 2 ^ 32
    → i < 32
    → bit (bit_or (bit_clear x ((2 ^ w - 1) * 2 ^ k)) (v * 2 ^ k)) i
      ≡ (if leb k i && ltb i (k + w) then bit v (i - k) else bit x i)
bit-field_update w k v x i h m l =
    let mask = (2 ^ w - 1) * 2 ^ k in
    rw
      (
        bit-or i (bit_clear x mask) (v * 2 ^ k),
        bit-and i x (bit_not mask),
        complement i 32 mask l m,
        shifted_bit k i v,
        shifted_bit k i (2 ^ w - 1),
      )
      (elim (Bool-cases (ltb i k)) [
        | inl below ↦ ground arith
        | inr reached ↦ elim (Bool-cases (ltb i (k + w))) [
          | inl within ↦ ground (arith, bit_of_ones w (i - k) (ground arith))
          | inr above ↦ ground (
            arith,
            bit_of_small w (i - k) v h (ground arith),
            bit_of_small w (i - k) (2 ^ w - 1) (omega (arith, one-le-pow w 2 two_positive))
                (ground arith),
          )
        ]
      ])

-- `(x | m) & m` is `m`.
pub bit_and_or : (n x m : ℕ) → m ≤ n → bit_and (bit_or x m) m ≡ m
bit_and_or zero x m h =
    let none_set : m ≡ 0 = omega arith in
    rw none_set (bit_and-zero (bit_or x 0) (bit_or x 0) (omega arith))
bit_and_or (suc n) x m h = omega (
  arith,
  bit_and_step (bit_or x m) m,
  bit_or_step x m,
  ap (λ (t : ℕ). bit_and t (m / 2)) (half_or x m),
  bit_and_or n (x / 2) (m / 2) (omega arith),
)
