-- ===== src/Base/Word.antt =====
-- The fixed widths of C: conversions, shifts, wrapping sums, complements, and arrays as tables.
use Prim.Native.Nat.{ℕ, ◌+◌, ◌-◌, ◌*◌, ◌/◌, ◌%◌, ◌^◌, bit_and}
use mathlib.Core.Bool.{Bool}
use device_abstraction_stack.Base.Tests.{◌==◌, ◌!=◌, if◌then◌else◌}

abbrev pub u8 : ℕ → ℕ
u8 n = n % 2 ^ 8

abbrev pub u16 : ℕ → ℕ
u16 n = n % 2 ^ 16

abbrev pub u32 : ℕ → ℕ
u32 n = n % 2 ^ 32

abbrev pub u64 : ℕ → ℕ
u64 n = n % 2 ^ 64

abbrev pub uint32_max : ℕ
uint32_max = 0xffff_ffff

-- `a - b` on `uint32_t`
abbrev pub sub32 : ℕ → ℕ → ℕ
sub32 a b = (a + 2 ^ 32 - b) % 2 ^ 32

infixl 75 ◌<<<◌ ◌>>>◌
-- `x << k` on `uint32_t`
abbrev pub ◌<<<◌ : ℕ → ℕ → ℕ
x <<< k = u32 (x * 2 ^ k)

abbrev pub ◌>>>◌ : ℕ → ℕ → ℕ
x >>> k = x / 2 ^ k

-- `~x` on `uint32_t`
abbrev pub bit_not : ℕ → ℕ
bit_not x = uint32_max - x

-- `x & ~mask`
abbrev pub bit_clear : ℕ → ℕ → ℕ
bit_clear x mask = bit_and x (bit_not mask)

-- `(x & mask) != 0`
abbrev pub has_bits : ℕ → ℕ → Bool
has_bits x mask = bit_and x mask != 0

-- A static array, read and written at an index.
abbrev pub Table : Type 0 → Type 0
Table A = ℕ → A

abbrev pub update : {A : Type 0} → Table A → ℕ → A → Table A
update f i v j = if i == j then v else f j
