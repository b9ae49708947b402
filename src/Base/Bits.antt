-- ===== src/Base/Bits.antt =====
-- Laws of `&` and `|` at variables: fields that are shifted and put together, and masks.
use Prim.Native.Nat.{
  ℕ, zero, suc, ◌+◌, ◌-◌, ◌*◌, ◌/◌, ◌%◌, ◌^◌, ◌≤◌, ◌<◌, min, max, bit_and, bit_or, digits, bitwise,
  bit_and-bitwise, bit_or-bitwise,
}
use mathlib.Core.Path.{◌≡◌, refl, sym, ap, ◌∙◌}
use native.Mathlib.Nat.{pow-suc, one-le-pow}
use native.Mathlib.Omega.{arith}

-- A binary operation on digits, and what it does when the first number has run out, which has to
-- be what the operation does with the digit 0.
module _ (op : ℕ → ℕ → ℕ) (rest : ℕ → ℕ)
    (unrolled : (y : ℕ) → rest y ≡ rest (y / 2) * 2 + op 0 (y % 2)) where
  exhausted : (count y : ℕ) → digits rest op count 0 y ≡ rest y
  exhausted zero y = refl
  exhausted (suc count) y = refl

  -- How many digits are still to go does not matter, as long as there are enough.
  same_digits :
      (bound x : ℕ)
      → x ≤ bound
      → (y count other : ℕ) → x ≤ count
      → x ≤ other
      → digits rest op count x y ≡ digits rest op other x y
  same_digits bound zero h y count other k l = exhausted count y ∙ sym (exhausted other y)
  same_digits zero (suc x) h y count other k l = absurd (omega arith)
  same_digits (suc bound) (suc x) h y zero other k l = absurd (omega arith)
  same_digits (suc bound) (suc x) h y (suc count) zero k l = absurd (omega arith)
  same_digits (suc bound) (suc x) h y (suc count) (suc other) k l =
      ap (λ (t : ℕ). t * 2 + op (suc x % 2) (y % 2))
        (same_digits bound (suc x / 2) (omega arith) (y / 2) count other (omega arith)
          (omega arith))

  lowest_digit :
      (x y : ℕ) → bitwise rest op x y ≡ bitwise rest op (x / 2) (y / 2) * 2 + op (x % 2) (y % 2)
  lowest_digit zero y = unrolled y
  lowest_digit (suc x) y =
      ap (λ (t : ℕ). t * 2 + op (suc x % 2) (y % 2))
        (same_digits x (suc x / 2) (omega arith) (y / 2) x (suc x / 2) (omega arith) (omega arith))

pub bit_or_step : (x y : ℕ) → bit_or x y ≡ bit_or (x / 2) (y / 2) * 2 + max (x % 2) (y % 2)
bit_or_step x y = simp bit_or-bitwise (lowest_digit max (λ t. t) (λ t. omega arith) x y)

pub bit_and_step : (x y : ℕ) → bit_and x y ≡ bit_and (x / 2) (y / 2) * 2 + min (x % 2) (y % 2)
bit_and_step x y = simp bit_and-bitwise (lowest_digit min (λ t. 0) (λ t. omega arith) x y)

bit_or-zero : (n a : ℕ) → a ≤ n → bit_or a 0 ≡ a
bit_or-zero zero zero h = refl
bit_or-zero zero (suc a) h = absurd (omega arith)
bit_or-zero (suc n) zero h = refl
bit_or-zero (suc n) (suc a) h =
    omega (arith, bit_or_step (suc a) 0, bit_or-zero n (suc a / 2) (omega arith))

pub bit_and-zero : (n a : ℕ) → a ≤ n → bit_and a 0 ≡ 0
bit_and-zero zero zero h = refl
bit_and-zero zero (suc a) h = absurd (omega arith)
bit_and-zero (suc n) zero h = refl
bit_and-zero (suc n) (suc a) h =
    omega (arith, bit_and_step (suc a) 0, bit_and-zero n (suc a / 2) (omega arith))

pub double_field : (q k : ℕ) → q * 2 ^ suc k ≡ 2 * (q * 2 ^ k)
double_field q k = omega (arith, ap (λ (t : ℕ). q * t) (pow-suc 2 k))

-- `(q << k) | r` is a sum when `r` has `k` digits.
pub bit_or_sum : (k q r : ℕ) → r < 2 ^ k → bit_or (q * 2 ^ k) r ≡ q * 2 ^ k + r
bit_or_sum zero q r h = ground (arith, bit_or-zero q q)
bit_or_sum (suc k) q r h = ground (
  arith,
  bit_or_step (q * 2 ^ suc k) r,
  double_field q k,
  bit_or_sum k q (r / 2) (omega (arith, pow-suc 2 k)),
)

bit_and_sum : (k q r : ℕ) → r < 2 ^ k → bit_and (q * 2 ^ k + r) (2 ^ k - 1) ≡ r
bit_and_sum zero q r h = rw (bit_and-zero (q * 1 + r) (q * 1 + r) (omega arith)) (omega arith)
bit_and_sum (suc k) q r h = ground (
  arith,
  bit_and_step (q * 2 ^ suc k + r) (2 ^ suc k - 1),
  double_field q k,
  pow-suc 2 k,
  bit_and_sum k q (r / 2) (omega (arith, pow-suc 2 k)),
)

-- A mask of the `k` lowest digits is the remainder by `2 ^ k`.
pub bit_and_low : (k a : ℕ) → bit_and a (2 ^ k - 1) ≡ a % 2 ^ k
bit_and_low k a = ground (arith, one-le-pow k 2, bit_and_sum k (a / 2 ^ k) (a % 2 ^ k))
