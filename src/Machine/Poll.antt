-- ===== src/Machine/Poll.antt =====
-- The bounded polls of a register, `wait_mask` in src/device/stm32h755/clock.c and power.c.
use device_abstraction_stack.Base.{ℕ, zero, suc, Bool, not, bit_and, has_bits, ◌==◌, if◌then◌else◌}
use device_abstraction_stack.Machine.Reg.{Reg}
use device_abstraction_stack.Machine.Platform.{Platform}
use device_abstraction_stack.Machine.Monad.{M, timeout, return, fail, ◌>>=◌, read_reg}

-- `a == b` on `bool`
abbrev pub same : Bool → Bool → Bool
same a b = if a then b else not b

module _ ⦃p : Platform⦄ where
  unfoldable pub wait_mask : Reg → ℕ → Bool → ℕ → M (Unit {0})
  wait_mask reg mask set zero = fail timeout
  wait_mask reg mask set (suc wait_limit) = do
    v ← read_reg reg
    if same (has_bits v mask) set then return tt else wait_mask reg mask set wait_limit

  -- The loops on `(RCC->CFGR & RCC_CFGR_SWS) == status`.
  unfoldable pub wait_field : Reg → ℕ → ℕ → ℕ → M (Unit {0})
  wait_field reg mask value zero = fail timeout
  wait_field reg mask value (suc wait_limit) = do
    v ← read_reg reg
    if bit_and v mask == value then return tt else wait_field reg mask value wait_limit
