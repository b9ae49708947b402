-- ===== src/I2c/Phases.antt =====
-- The phases of I2C transfers, within the limit of a wait.
use device_abstraction_stack.Base.{
  ℕ, zero, suc, ◌+◌, ◌*◌, ◌≤◌, ◌∙◌, inl, refl, Bool, true, false, u8,
}
use device_abstraction_stack.Api.Time.{das_time_max_interval_ms}
use device_abstraction_stack.Machine.Reg.{Reg}
use device_abstraction_stack.Machine.Platform.{Platform}
use device_abstraction_stack.Machine.Monad.{M, write_reg, ◌>>◌}
use device_abstraction_stack.Machine.Success.{and_then-Returned}
use device_abstraction_stack.Time.Clock.{Ticking}
use device_abstraction_stack.Time.Waiting.{Apart}
use device_abstraction_stack.Time.Limit.{Within, after, enough}
use device_abstraction_stack.I2c.Wait.{wait_for_set, wait_bus_idle, clear_status, clear_flags}
use device_abstraction_stack.I2c.Transfer.{
  send_bytes, receive_bytes, finish_autoend, finish_phase, write_phase, read_phase, probe_phase,
  both_phases, transfer_cr2,
}
use device_abstraction_stack.I2c.Timeout.{
  finite_wait, Keeps, wait_for_set-Returned, wait_bus_idle-Returned,
}

-- A wait with a limit, and fuel for all of its polls.
module _ ⦃p : Platform⦄ (source context : ℕ) (t : Ticking p source context)
    (apart : Apart p source context t) (fuel start limit : ℕ) (h : limit ≤ das_time_max_interval_ms)
    (f : (limit + 1) * (t.patience + 1) ≤ fuel) where
  abbrev Kept : M (Unit {0}) → Type 0
  Kept m = Keeps source context t apart start limit m

  then_Kept : {m k : M (Unit {0})} → Kept m → Kept k → Kept (m >> k)
  then_Kept {m} {k} a b w v =
      and_then-Returned (Within source context t apart start limit)
        (Within source context t apart start limit) (m w) k (a w v) b

  write_reg-Kept : (r : Reg) (v : ℕ) → Kept (write_reg r v)
  write_reg-Kept r x w v =
      inl (refl, after source context t apart (p.write r x w.hw) v (apart.writes r x w.hw).0)

  set-Kept : (flag : ℕ) → Kept (wait_for_set fuel flag (finite_wait start limit))
  set-Kept flag w v =
      wait_for_set-Returned source context t apart fuel flag start limit w h v
        (enough source context t apart fuel start limit w f v)

  pub idle-Kept : Kept (wait_bus_idle fuel (finite_wait start limit))
  idle-Kept w v =
      wait_bus_idle-Returned source context t apart fuel start limit w h v
        (enough source context t apart fuel start limit w f v)

  send_bytes-Kept :
      (left data_ index : ℕ) → Kept (send_bytes left fuel (finite_wait start limit) data_ index)
  unfolding send_bytes
  send_bytes-Kept zero data_ index w v = inl (refl, v)
  send_bytes-Kept (suc left) data_ index w v =
      then_Kept (set-Kept p.cmsis.i2c.isr_txis)
        (λ u d.
          let (value, s) = p.load_byte (data_ + index) u.hw in
          let sent = p.write Reg.i2c_txdr (u8 value) s in
          send_bytes-Kept left data_ (index + 1) (record u { hw = sent })
            (after source context t apart sent d
              ((apart.writes Reg.i2c_txdr (u8 value) s).0 ∙ (apart.loads (data_ + index) u.hw).0)))
        w v

  receive_bytes-Kept :
      (left data_ index : ℕ) → Kept (receive_bytes left fuel (finite_wait start limit) data_ index)
  unfolding receive_bytes
  receive_bytes-Kept zero data_ index w v = inl (refl, v)
  receive_bytes-Kept (suc left) data_ index w v =
      then_Kept (set-Kept p.cmsis.i2c.isr_rxne)
        (λ u d.
          let (value, s) = p.read Reg.i2c_rxdr u.hw in
          let stored = p.store_byte (data_ + index) (u8 value) s in
          receive_bytes-Kept left data_ (index + 1) (record u { hw = stored })
            (after source context t apart stored d
              ((apart.stores (data_ + index) (u8 value) s).0 ∙ (apart.reads Reg.i2c_rxdr u.hw).0)))
        w v

  finish_phase-Kept : (autoend : Bool) → Kept (finish_phase fuel autoend (finite_wait start limit))
  unfolding finish_phase finish_autoend
  finish_phase-Kept true =
      then_Kept (set-Kept p.cmsis.i2c.isr_stopf) (write_reg-Kept Reg.i2c_icr p.cmsis.i2c.icr_stopcf)
  finish_phase-Kept false = set-Kept p.cmsis.i2c.isr_tc

  -- What stands before the bytes of each phase.
  opened_Kept :
      (cr2 : ℕ) {rest : M (Unit {0})}
      → Kept rest
      → Kept (clear_status >> (write_reg Reg.i2c_cr2 cr2 >> rest))
  unfolding clear_status
  opened_Kept cr2 r =
      then_Kept (write_reg-Kept Reg.i2c_icr clear_flags)
        (then_Kept (write_reg-Kept Reg.i2c_cr2 cr2) r)

  pub write_phase-Kept :
      (address data_ size : ℕ) (autoend : Bool)
      → Kept (write_phase fuel address data_ size autoend (finite_wait start limit))
  unfolding write_phase
  write_phase-Kept address data_ size autoend =
      opened_Kept (transfer_cr2 address size false autoend)
        (then_Kept (send_bytes-Kept size data_ 0) (finish_phase-Kept autoend))

  pub read_phase-Kept :
      (address data_ size : ℕ) (autoend : Bool)
      → Kept (read_phase fuel address data_ size autoend (finite_wait start limit))
  unfolding read_phase
  read_phase-Kept address data_ size autoend =
      opened_Kept (transfer_cr2 address size true autoend)
        (then_Kept (receive_bytes-Kept size data_ 0) (finish_phase-Kept autoend))

  pub probe_phase-Kept : (address : ℕ) → Kept (probe_phase fuel address (finite_wait start limit))
  unfolding probe_phase finish_phase
  probe_phase-Kept address =
      opened_Kept (transfer_cr2 address 0 false true) (finish_phase-Kept true)

  pub both_phases-Kept :
      (address write_data write_size read_data read_size : ℕ)
      → Kept (
          both_phases fuel address write_data write_size read_data read_size
            (finite_wait start limit))
  unfolding both_phases
  both_phases-Kept address write_data write_size read_data read_size =
      then_Kept (write_phase-Kept address write_data write_size false)
        (read_phase-Kept address read_data read_size true)
