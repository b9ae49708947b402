-- ===== src/I2c/Wait.antt =====
-- The waits of src/device/stm32h755/i2c.c, with `i2c_wait_t`.
use device_abstraction_stack.Base.{
  ℕ, zero, suc, Bool, true, false, not, bit_or, has_bits, ltb, ◌==◌, if◌then◌else◌,
}
use device_abstraction_stack.Api.Time.{das_time_max_interval_ms}
use device_abstraction_stack.Api.I2c.{das_i2c_wait_forever}
use device_abstraction_stack.Machine.Reg.{Reg}
use device_abstraction_stack.Machine.Platform.{Platform}
use device_abstraction_stack.Machine.Monad.{
  M, invalid_argument, not_ready, timeout, io, return, fail, spin, fail_if, ◌>>=◌, ◌>>◌, read_reg,
  write_reg, modify_reg,
}
use device_abstraction_stack.Time.{das_time_is_ready, das_time_now_ms, das_time_interval_elapsed}

pub record I2cWait : Type 0 where
  pub finite : Bool
  pub start_ms : ℕ
  pub timeout_ms : ℕ

abbrev pub without_limit : I2cWait
without_limit = record { finite = false; start_ms = 0; timeout_ms = 0 }

module _ ⦃p : Platform⦄ where
  abbrev pub clear_flags : ℕ
  clear_flags =
      let i2c = p.cmsis.i2c in
      bit_or (bit_or (bit_or (bit_or i2c.icr_stopcf i2c.icr_nackcf) i2c.icr_berrcf) i2c.icr_arlocf)
        i2c.icr_ovrcf

  unfoldable pub prepare_wait : ℕ → M I2cWait
  prepare_wait timeout_ms = if timeout_ms == das_i2c_wait_forever then return without_limit else (do
    fail_if (ltb das_time_max_interval_ms timeout_ms) invalid_argument
    ready ← das_time_is_ready
    fail_if (not ready) not_ready
    start_ms ← das_time_now_ms
    return (record { finite = true; start_ms = start_ms; timeout_ms = timeout_ms }))

  unfoldable pub wait_expired : I2cWait → M Bool
  wait_expired wait =
      if wait.finite then das_time_interval_elapsed wait.start_ms wait.timeout_ms else return false

  unfoldable pub clear_status : M (Unit {0})
  clear_status = write_reg Reg.i2c_icr clear_flags

  unfoldable pub abort_transfer : M (Unit {0})
  abort_transfer = do
    isr ← read_reg Reg.i2c_isr
    if has_bits isr p.cmsis.i2c.isr_busy
        then modify_reg Reg.i2c_cr2 (λ v. bit_or v p.cmsis.i2c.cr2_stop)
        else return tt
    clear_status

  unfoldable pub status_error : ℕ → M (Unit {0})
  status_error status =
      let i2c = p.cmsis.i2c in
      if has_bits status i2c.isr_nackf
      then (do write_reg Reg.i2c_icr (bit_or i2c.icr_nackcf i2c.icr_stopcf); fail io)
      else if has_bits status (bit_or (bit_or i2c.isr_berr i2c.isr_arlo) i2c.isr_ovr)
      then (do
        write_reg Reg.i2c_icr (bit_or (bit_or i2c.icr_berrcf i2c.icr_arlocf) i2c.icr_ovrcf)
        fail io)
      else return tt

  -- The loop has no bound in the source.
  unfoldable pub wait_for_set : ℕ → ℕ → I2cWait → M (Unit {0})
  wait_for_set zero flag wait = spin
  wait_for_set (suc fuel) flag wait = do
    status ← read_reg Reg.i2c_isr
    status_error status
    if has_bits status flag then return tt else (do
      expired ← wait_expired wait
      if expired then (do abort_transfer; fail timeout) else wait_for_set fuel flag wait)

  -- The loop has no bound in the source.
  unfoldable pub wait_bus_idle : ℕ → I2cWait → M (Unit {0})
  wait_bus_idle zero wait = spin
  wait_bus_idle (suc fuel) wait = do
    isr ← read_reg Reg.i2c_isr
    if has_bits isr p.cmsis.i2c.isr_busy
        then (do
          expired ← wait_expired wait
          if expired then (do abort_transfer; fail timeout) else wait_bus_idle fuel wait)
        else return tt
