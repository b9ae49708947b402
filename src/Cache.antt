-- ===== src/Cache.antt =====
-- src/mcu/cortex_m/cache.c: maintenance of the data cache. `uintptr_t` and `size_t` have 32 bits.
pub mod Range
pub mod Cover
use device_abstraction_stack.Base.{ℕ, Bool, false, not, ◌==◌, has_bits, if◌then◌else◌}
use device_abstraction_stack.Machine.Reg.{Reg}
use device_abstraction_stack.Machine.Platform.{Platform}
use device_abstraction_stack.Machine.Monad.{
  M, invalid_argument, unsupported, return, fail, fail_if, lift, ◌>>=◌, ◌>>◌, read_reg, do_hw,
}
use device_abstraction_stack.Cache.Range.{cache_range, dcache_line_size}

module _ ⦃p : Platform⦄ where
  -- `DAS_CORTEX_M_HAS_DCACHE`
  unfoldable pub has_dcache : Bool
  has_dcache = p.cmsis.core.core_cm7

  unfoldable pub das_cache_data_available : Bool
  das_cache_data_available = has_dcache

  unfoldable pub das_cache_data_is_enabled : M Bool
  das_cache_data_is_enabled =
      if has_dcache
      then (do ccr ← read_reg Reg.scb_ccr; return (has_bits ccr p.cmsis.core.scb_ccr_dc_msk))
      else return false

  unfoldable pub das_cache_data_line_size : ℕ
  das_cache_data_line_size = if has_dcache then dcache_line_size else 0

  unfoldable pub das_cache_data_enable : M (Unit {0})
  das_cache_data_enable =
      if has_dcache
      then (do
        enabled ← das_cache_data_is_enabled
        if not enabled then do_hw p.scb_enable_dcache else return tt)
      else fail unsupported

  unfoldable pub das_cache_data_disable : M (Unit {0})
  das_cache_data_disable =
      if has_dcache
      then (do
        enabled ← das_cache_data_is_enabled
        if enabled then do_hw p.scb_disable_dcache else return tt)
      else fail unsupported

  -- What the maintenance operations share; `by_addr` is the function of CMSIS.
  unfoldable pub maintain : (ℕ → ℕ → p.State → p.State) → ℕ → ℕ → M (Unit {0})
  maintain by_addr address size = if size == 0 then return tt else (do
    fail_if (address == 0) invalid_argument
    if has_dcache
        then (do
          range ← lift (cache_range address size)
          enabled ← das_cache_data_is_enabled
          if enabled then do_hw (by_addr range.0 range.1) else return tt)
        else return tt)

  unfoldable pub das_cache_data_clean : ℕ → ℕ → M (Unit {0})
  das_cache_data_clean address size = maintain p.scb_clean_dcache address size

  unfoldable pub das_cache_data_invalidate : ℕ → ℕ → M (Unit {0})
  das_cache_data_invalidate address size = maintain p.scb_invalidate_dcache address size

  unfoldable pub das_cache_data_clean_invalidate : ℕ → ℕ → M (Unit {0})
  das_cache_data_clean_invalidate address size = maintain p.scb_clean_invalidate_dcache address size
