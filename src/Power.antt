-- ===== src/Power.antt =====
-- src/device/stm32h755/power.c: the direct SMPS supply of the core.
use device_abstraction_stack.Base.{
  ℕ, true, not, bit_and, bit_or, bit_clear, ◌==◌, ◌!=◌, if◌then◌else◌,
}
use device_abstraction_stack.Machine.Reg.{Reg}
use device_abstraction_stack.Machine.Platform.{Platform}
use device_abstraction_stack.Machine.Monad.{
  M, invalid_argument, unsupported, return, fail_if, ◌>>=◌, ◌>>◌, read_reg, modify_reg,
}
use device_abstraction_stack.Machine.Poll.{wait_mask}

module _ ⦃p : Platform⦄ where
  abbrev supply_mask : ℕ
  supply_mask =
      bit_or (bit_or p.cmsis.power.cr3_smpsen p.cmsis.power.cr3_ldoen) p.cmsis.power.cr3_bypass

  unfoldable pub stm32h755_power_configure_direct_smps : ℕ → M (Unit {0})
  stm32h755_power_configure_direct_smps wait_limit = do
    fail_if (not p.cmsis.core.core_cm7) unsupported
    fail_if (wait_limit == 0) invalid_argument
    cr3 ← read_reg Reg.pwr_cr3
    let supply_state = bit_and cr3 supply_mask
    if supply_state == bit_or p.cmsis.power.cr3_smpsen p.cmsis.power.cr3_ldoen
        then (do
          modify_reg Reg.pwr_cr3 (λ v. bit_clear v p.cmsis.power.cr3_ldoen)
          unused ← read_reg Reg.pwr_cr3
          return tt)
        else fail_if (supply_state != p.cmsis.power.cr3_smpsen) unsupported
    settled ← read_reg Reg.pwr_cr3
    fail_if (bit_and settled supply_mask != p.cmsis.power.cr3_smpsen) unsupported
    wait_mask Reg.pwr_csr1 p.cmsis.power.csr1_actvosrdy true wait_limit
