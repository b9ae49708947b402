-- ===== src/I2c/Timeout.antt =====
-- The waits of I2C transfers, within their limit.
use device_abstraction_stack.Base.{
  ℕ, zero, suc, ◌+◌, ◌≤◌, ◌<◌, ◌≡◌, inl, inr, arith, refl, leb, true, u32, Bool-cases, has_bits,
  bit_or,
}
use device_abstraction_stack.Api.Time.{das_time_max_interval_ms}
use device_abstraction_stack.Machine.Reg.{Reg}
use device_abstraction_stack.Machine.Platform.{Platform}
use device_abstraction_stack.Machine.World.{World}
use device_abstraction_stack.Machine.Monad.{M, err, io, timeout, fail, ◌>>◌}
use device_abstraction_stack.Machine.Success.{Returned}
use device_abstraction_stack.Time.Clock.{Ticking}
use device_abstraction_stack.Time.Waiting.{Apart, polls_left, asked, elapsed-Waiting, asked-Waiting}
use device_abstraction_stack.Time.Limit.{Within, after}
use device_abstraction_stack.I2c.Wait.{
  I2cWait, wait_for_set, wait_bus_idle, wait_expired, status_error, abort_transfer, clear_status,
}

-- A finite wait, as `prepare_wait` makes it.
abbrev pub finite_wait : ℕ → ℕ → I2cWait
finite_wait start limit = record { finite = true; start_ms = u32 start; timeout_ms = limit }

module _ ⦃p : Platform⦄ where
  -- A wait that aborts the transfer reports the timeout, busy or not.
  aborted :
      (w : World p)
      → let answer : M (Unit {0}) = abort_transfer >> fail timeout in (answer w).0 ≡ err timeout
  unfolding abort_transfer clear_status
  aborted w = elim (Bool-cases (has_bits (p.read Reg.i2c_isr w.hw).0 p.cmsis.i2c.isr_busy)) [
    | inl busy ↦ rw busy refl
    | inr idle ↦ rw idle refl
  ]

module _ ⦃p : Platform⦄ (source context : ℕ) (t : Ticking p source context)
    (apart : Apart p source context t) where
  -- A call that returns, and leaves the wait that began at `start` within its limit if it succeeds.
  abbrev pub Keeps : ℕ → ℕ → M (Unit {0}) → Type 0
  Keeps start limit m =
      (w : World p)
      → Within source context t apart start limit w
      → Returned (Within source context t apart start limit) (m w)

  pub wait_for_set-Returned :
      (fuel flag start limit : ℕ) (w : World p)
      → limit ≤ das_time_max_interval_ms
      → Within source context t apart start limit w
      → polls_left source context t start limit w < fuel
      → Returned
          (Within source context t apart start limit)
          (wait_for_set fuel flag (finite_wait start limit) w)
  unfolding wait_for_set wait_expired status_error
  wait_for_set-Returned zero flag start limit w h v f = absurd (omega arith)
  wait_for_set-Returned (suc fuel) flag start limit w h v f =
      let status = (p.read Reg.i2c_isr w.hw).0 in
      let s = (p.read Reg.i2c_isr w.hw).1 in
      let w1 : World p = record w { hw = s } in
      let (same, calm) = apart.reads Reg.i2c_isr w.hw in
      let v1 : Within source context t apart start limit w1 =
        after source context t apart s v same in
      let level : polls_left source context t start limit w1
          ≡ polls_left source context t start limit w =
        rw (same, calm) refl in
      let i2c = p.cmsis.i2c in
      elim (Bool-cases (has_bits status i2c.isr_nackf)) [
        | inl nack ↦ rw nack (inr (io, refl))
        | inr ack ↦
            rw ack
              (elim (Bool-cases
                (has_bits status (bit_or (bit_or i2c.isr_berr i2c.isr_arlo) i2c.isr_ovr))) [
                  | inl faulty ↦ rw faulty (inr (io, refl))
                  | inr clean ↦ rw clean (elim (Bool-cases (has_bits status flag)) [
                    | inl set ↦ rw set (inl (refl, v1))
                    | inr clear ↦
                        rw (clear, elapsed-Waiting source context t start limit w1 v1 h)
                          (elim (Bool-cases
                            (leb (start + limit) (t.now (asked source context t w1).hw))) [
                              | inl expired ↦
                                  rw expired (inr (timeout, aborted (asked source context t w1)))
                              | inr early ↦
                                  let (v2, fewer) =
                                    asked-Waiting source context t start limit w1 v1 early in
                                  rw early (
                                    wait_for_set-Returned fuel flag start limit
                                      (asked source context t w1) h v2
                                      (omega (arith, fewer, level)))
                            ])
                  ])
                ])
      ]

  pub wait_bus_idle-Returned :
      (fuel start limit : ℕ) (w : World p)
      → limit ≤ das_time_max_interval_ms
      → Within source context t apart start limit w
      → polls_left source context t start limit w < fuel
      → Returned
          (Within source context t apart start limit)
          (wait_bus_idle fuel (finite_wait start limit) w)
  unfolding wait_bus_idle wait_expired
  wait_bus_idle-Returned zero start limit w h v f = absurd (omega arith)
  wait_bus_idle-Returned (suc fuel) start limit w h v f =
      let s = (p.read Reg.i2c_isr w.hw).1 in
      let w1 : World p = record w { hw = s } in
      let (same, calm) = apart.reads Reg.i2c_isr w.hw in
      let v1 : Within source context t apart start limit w1 =
        after source context t apart s v same in
      let level : polls_left source context t start limit w1
          ≡ polls_left source context t start limit w =
        rw (same, calm) refl in
      elim (Bool-cases (has_bits (p.read Reg.i2c_isr w.hw).0 p.cmsis.i2c.isr_busy)) [
        | inr idle ↦ rw idle (inl (refl, v1))
        | inl busy ↦
            rw (busy, elapsed-Waiting source context t start limit w1 v1 h)
              (elim (Bool-cases (leb (start + limit) (t.now (asked source context t w1).hw))) [
                | inl expired ↦ rw expired (inr (timeout, aborted (asked source context t w1)))
                | inr early ↦
                    let (v2, fewer) = asked-Waiting source context t start limit w1 v1 early in
                    rw early (
                      wait_bus_idle-Returned fuel start limit (asked source context t w1) h v2
                        (omega (arith, fewer, level)))
              ])
      ]
