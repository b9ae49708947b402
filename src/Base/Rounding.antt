-- ===== src/Base/Rounding.antt =====
-- Rounded quotients of natural numbers, as the drivers compute dividers.
use Prim.Native.Nat.{ℕ, ◌+◌, ◌*◌, ◌/◌, ◌≤◌, ◌<◌}
use native.Mathlib.Omega.{arith}

-- `q` steps of `b` come within half a step of `a`.
abbrev pub Nearest : ℕ → ℕ → ℕ → Type 0
Nearest a b q = (q * b ≤ a + b / 2) × (a < q * b + (b + 1) / 2)

pub quotient_bounds : (a b : ℕ) → 0 < b → (a / b * b ≤ a) × (a < a / b * b + b)
quotient_bounds a b h = (omega arith, omega arith)

pub rounded-Nearest : (a b : ℕ) → 0 < b → Nearest a b ((a + b / 2) / b)
rounded-Nearest a b h = let (lo, hi) = quotient_bounds (a + b / 2) b h in (lo, omega arith)

pub le_quotient : (a b q : ℕ) → 0 < b → q * b ≤ a → q ≤ a / b
le_quotient a b q h k = from_bound (quotient_bounds a b h).1
  where
    from_bound : a < a / b * b + b → q ≤ a / b
    from_bound l = grind arith

pub quotient_le : (a b q : ℕ) → 0 < b → a < q * b + b → a / b ≤ q
quotient_le a b q h k = from_bound (quotient_bounds a b h).0
  where
    from_bound : a / b * b ≤ a → a / b ≤ q
    from_bound l = grind arith

pub mul_mono : (a b k : ℕ) → a ≤ b → a * k ≤ b * k
mul_mono a b k h = grind arith
