-- ===== src/Cache/Range.antt =====
-- The range of whole cache lines in src/mcu/cortex_m/cache.c. The output pointers are addresses of
-- locals and never null.
use device_abstraction_stack.Base.{
  ℕ, ◌+◌, ◌-◌, u32, sub32, uint32_max, bit_clear, ltb, ◌==◌, if◌then◌else◌,
}
use device_abstraction_stack.Machine.Monad.{Outcome, ok, err, invalid_argument}

abbrev pub dcache_line_size : ℕ
dcache_line_size = 32

abbrev pub line_mask : ℕ
line_mask = dcache_line_size - 1

-- `x & ~mask`
unfoldable pub line_start : ℕ → ℕ
line_start x = bit_clear x line_mask

-- The first line and the span, once the end of the range is known to be addressable.
unfoldable pub line_range : ℕ → ℕ → Outcome (ℕ × ℕ)
line_range start end_ =
    let first = line_start start in
    let last = line_start (u32 (end_ + line_mask)) in
    let span = sub32 last first in
    if ltb (uint32_max - line_mask) end_
    then err invalid_argument
    else if ltb 0x7fff_ffff span
    then err invalid_argument
    else ok (first, span)

unfoldable pub cache_range : ℕ → ℕ → Outcome (ℕ × ℕ)
cache_range address size =
    if size == 0
    then ok (0, 0)
    else if address == 0
    then err invalid_argument
    else if ltb (uint32_max - address) size
    then err invalid_argument
    else line_range address (u32 (address + size))
