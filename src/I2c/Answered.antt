-- ===== src/I2c/Answered.antt =====
-- How I2C transfers with a timeout end, under a source that advances.
use device_abstraction_stack.Base.{
  ℕ, ◌+◌, ◌*◌, ◌≤◌, ◌≡◌, ◌≢◌, inl, inr, arith, refl, not, ◌&&◌, ◌||◌, Bool-cases, has_bits, ltb,
  ◌==◌, ◌!=◌, true,
}
use device_abstraction_stack.Api.Time.{das_time_max_interval_ms}
use device_abstraction_stack.Api.I2c.{das_i2c_wait_forever}
use device_abstraction_stack.Machine.Reg.{Reg}
use device_abstraction_stack.Machine.Platform.{Platform}
use device_abstraction_stack.Machine.World.{World}
use device_abstraction_stack.Machine.Monad.{
  M, invalid_argument, unsupported, not_ready, ok, err, ◌>>◌,
}
use device_abstraction_stack.Machine.Success.{and_then-Returned}
use device_abstraction_stack.Time.{das_time_is_ready}
use device_abstraction_stack.Time.Clock.{Ticking, Installed, das_time_now_ms_lem}
use device_abstraction_stack.Time.Waiting.{Apart, asked}
use device_abstraction_stack.Time.Limit.{Within, begun, Answered, answered}
use device_abstraction_stack.I2c.Wait.{I2cWait, prepare_wait, wait_bus_idle}
use device_abstraction_stack.I2c.Setup.{resolve_i2c, address_valid, require_enabled}
use device_abstraction_stack.I2c.Transfer.{
  on_idle_bus, max_phase, das_i2c_probe_timeout, das_i2c_write_timeout, das_i2c_read_timeout,
  das_i2c_write_read_timeout, probe_phase, write_phase, read_phase, both_phases,
}
use device_abstraction_stack.I2c.Timeout.{finite_wait, Keeps}
use device_abstraction_stack.I2c.Phases.{
  idle-Kept, write_phase-Kept, read_phase-Kept, probe_phase-Kept, both_phases-Kept,
}

-- A timeout that is not `DAS_I2C_WAIT_FOREVER`, and fuel for all of its polls.
module _ ⦃p : Platform⦄ (source context : ℕ) (t : Ticking p source context)
    (apart : Apart p source context t) (fuel timeout_ms : ℕ) (h : timeout_ms ≢ das_i2c_wait_forever)
    (f : (timeout_ms + 1) * (t.patience + 1) ≤ fuel) where
  prepare_wait-finite :
      (w : World p)
      → Installed source context w
      → timeout_ms ≤ das_time_max_interval_ms
      → prepare_wait timeout_ms w ≡ (
        ok (finite_wait (t.now (asked source context t w).hw) timeout_ms),
        asked source context t w,
      )
  unfolding prepare_wait das_time_is_ready
  prepare_wait-finite w i short =
      ground (arith, das_time_now_ms_lem source context t w i, i.source_set)

  prepare_wait-refused :
      (w : World p)
      → ltb das_time_max_interval_ms timeout_ms ≡ true
      → prepare_wait timeout_ms w ≡ (err invalid_argument, w)
  unfolding prepare_wait
  prepare_wait-refused w long = ground arith

  -- Phases that keep every wait within its limit return when they follow the wait for the idle bus.
  on_idle_bus-Answered :
      (phases : I2cWait → M (Unit {0}))
      → (timeout_ms ≤ das_time_max_interval_ms
          → (start : ℕ)
          → Keeps source context t apart start timeout_ms (phases (finite_wait start timeout_ms)))
      → (w : World p) → Installed source context w
      → Answered source context t apart (on_idle_bus fuel timeout_ms phases w)
  unfolding on_idle_bus
  on_idle_bus-Answered phases k w i =
      let start = t.now (asked source context t w).hw in
      elim (Bool-cases (ltb das_time_max_interval_ms timeout_ms)) [
        | inl long ↦ rw (prepare_wait-refused w long) (inr (invalid_argument, refl))
        | inr short ↦
            let below : timeout_ms ≤ das_time_max_interval_ms = ground arith in
            rw (prepare_wait-finite w i below) (
              answered source context t apart _ (
                and_then-Returned (Within source context t apart start timeout_ms)
                  (Within source context t apart start timeout_ms)
                  (wait_bus_idle fuel (finite_wait start timeout_ms) (asked source context t w)) _
                  (idle-Kept source context t apart fuel start timeout_ms below f
                    (asked source context t w) (begun source context t apart timeout_ms w i))
                  (k below start)))
      ]

  -- The same after the check that the controller is enabled.
  when_enabled-Answered :
      (m : M (Unit {0}))
      → ((w : World p) → Installed source context w → Answered source context t apart (m w))
      → (w : World p) → Installed source context w
      → Answered source context t apart ((require_enabled >> m) w)
  unfolding require_enabled
  when_enabled-Answered m k w i =
      elim (Bool-cases (has_bits (p.read Reg.i2c_cr1 w.hw).0 p.cmsis.i2c.cr1_pe)) [
        | inl enabled ↦ rw enabled (
            k (record w { hw = (p.read Reg.i2c_cr1 w.hw).1 })
              (record { source_set = i.source_set; context_set = i.context_set }))
        | inr disabled ↦ rw disabled (inr (not_ready, refl))
      ]

  -- Under an advancing source, a probe of any address with any timeout but `DAS_I2C_WAIT_FOREVER`
  -- returns, with `DAS_OK` or
  -- an error, whatever the bus does, when each of its waits has fuel for
  -- `(timeout_ms + 1) * (patience + 1)` polls.
  das_i2c_probe_timeout-Answered :
      (i2c address : ℕ) (w : World p)
      → Installed source context w
      → Answered source context t apart (das_i2c_probe_timeout fuel i2c address timeout_ms w)
  unfolding das_i2c_probe_timeout
  das_i2c_probe_timeout-Answered i2c address w i =
      elim (Bool-cases (not (resolve_i2c i2c) || not (address_valid address))) [
        | inl invalid ↦ rw invalid (inr (invalid_argument, refl))
        | inr valid ↦ rw valid (
            when_enabled-Answered (on_idle_bus fuel timeout_ms (probe_phase fuel address))
              (on_idle_bus-Answered (probe_phase fuel address) (λ short start.
                probe_phase-Kept source context t apart fuel start timeout_ms short f address))
              w i)
      ]

  das_i2c_write_timeout-Answered :
      (i2c address data_ size : ℕ) (w : World p)
      → Installed source context w
      → Answered source context t apart
          (das_i2c_write_timeout fuel i2c address data_ size timeout_ms w)
  unfolding das_i2c_write_timeout
  das_i2c_write_timeout-Answered i2c address data_ size w i =
      elim (Bool-cases
        (not (resolve_i2c i2c) || not (address_valid address) || size != 0 && data_ == 0)) [
          | inl invalid ↦ rw invalid (inr (invalid_argument, refl))
          | inr valid ↦ rw valid (elim (Bool-cases (ltb max_phase size)) [
            | inl long ↦ rw long (inr (unsupported, refl))
            | inr short ↦ rw short (elim (Bool-cases (size == 0)) [
              | inl empty ↦ rw empty (
                  when_enabled-Answered (das_i2c_probe_timeout fuel i2c address timeout_ms)
                    (das_i2c_probe_timeout-Answered i2c address) w i)
              | inr some_bytes ↦ rw some_bytes (
                  when_enabled-Answered
                    (on_idle_bus fuel timeout_ms (write_phase fuel address data_ size true))
                    (on_idle_bus-Answered (write_phase fuel address data_ size true) (λ short start.
                      write_phase-Kept source context t apart fuel start timeout_ms short f address
                        data_ size true))
                    w i)
            ])
          ])
        ]

  das_i2c_read_timeout-Answered :
      (i2c address data_ size : ℕ) (w : World p)
      → Installed source context w
      → Answered source context t apart
          (das_i2c_read_timeout fuel i2c address data_ size timeout_ms w)
  unfolding das_i2c_read_timeout
  das_i2c_read_timeout-Answered i2c address data_ size w i =
      elim (Bool-cases
        (not (resolve_i2c i2c) || not (address_valid address) || size != 0 && data_ == 0)) [
          | inl invalid ↦ rw invalid (inr (invalid_argument, refl))
          | inr valid ↦ rw valid (elim (Bool-cases (size == 0)) [
            | inl empty ↦ rw empty (inl (refl, i))
            | inr some_bytes ↦ rw some_bytes (elim (Bool-cases (ltb max_phase size)) [
              | inl long ↦ rw long (inr (unsupported, refl))
              | inr short ↦ rw short (
                  when_enabled-Answered
                    (on_idle_bus fuel timeout_ms (read_phase fuel address data_ size true))
                    (on_idle_bus-Answered (read_phase fuel address data_ size true) (λ short start.
                      read_phase-Kept source context t apart fuel start timeout_ms short f address
                        data_ size true))
                    w i)
            ])
          ])
        ]

  -- Under an advancing source, a write followed by a read with any timeout but `DAS_I2C_WAIT_FOREVER`,
  -- one that is too long included, returns, with `DAS_OK` or an error, whatever the bus does, when each of its waits has fuel for
  -- `(timeout_ms + 1) * (patience + 1)` polls. Either part may be empty, in which case the other one
  -- is the whole transfer.
  pub das_i2c_write_read_timeout-Answered :
      (i2c address write_data write_size read_data read_size : ℕ) (w : World p)
      → Installed source context w
      → Answered source context t apart (
          das_i2c_write_read_timeout fuel i2c address write_data write_size read_data read_size
            timeout_ms w)
  unfolding das_i2c_write_read_timeout
  das_i2c_write_read_timeout-Answered i2c address write_data write_size read_data read_size w i =
      elim (Bool-cases (
        not (resolve_i2c i2c)
        || not (address_valid address)
        || write_size != 0 && write_data == 0
        || read_size != 0 && read_data == 0)) [
          | inl invalid ↦ rw invalid (inr (invalid_argument, refl))
          | inr valid ↦
              rw valid (elim (Bool-cases (ltb max_phase write_size || ltb max_phase read_size)) [
                | inl long ↦ rw long (inr (unsupported, refl))
                | inr short ↦ rw short (elim (Bool-cases (write_size == 0)) [
                  | inl empty ↦
                      rw empty (das_i2c_read_timeout-Answered i2c address read_data read_size w i)
                  | inr some_bytes ↦ rw some_bytes (elim (Bool-cases (read_size == 0)) [
                    | inl empty ↦
                        rw empty
                          (das_i2c_write_timeout-Answered i2c address write_data write_size w i)
                    | inr more_bytes ↦ rw more_bytes (
                        when_enabled-Answered
                          (on_idle_bus fuel timeout_ms
                            (both_phases fuel address write_data write_size read_data read_size))
                          (on_idle_bus-Answered
                            (both_phases fuel address write_data write_size read_data read_size)
                            (λ short start.
                              both_phases-Kept source context t apart fuel start timeout_ms short f
                                address write_data write_size read_data read_size))
                          w i)
                  ])
                ])
              ])
        ]
