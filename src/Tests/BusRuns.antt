-- ===== src/Tests/BusRuns.antt =====
-- I2C transfers and cache maintenance on the board.
use device_abstraction_stack.Base.{
  ℕ, ◌+◌, ◌*◌, ◌/◌, ◌≤◌, ◌≡◌, ◌⊎◌, inl, inr, refl, arith, true, some, has_bits, if◌then◌else◌,
}
use device_abstraction_stack.Machine.Monad.{ok, err, unsupported, not_ready, invalid_argument}
use device_abstraction_stack.Time.Limit.{Answered}
use device_abstraction_stack.I2c.Timing.{Fields, calculate_timing, timing_word, divider_of}
use device_abstraction_stack.I2c.Setup.{i2c1, das_i2c_init}
use device_abstraction_stack.I2c.Transfer.{das_i2c_write_read_timeout}
use device_abstraction_stack.I2c.Answered.{das_i2c_write_read_timeout-Answered}
use device_abstraction_stack.I2c.Rate.{Fitting}
use device_abstraction_stack.I2c.Readback.{TimingrDocumented, calculate_timing-readback}
use device_abstraction_stack.I2c.Offered.{calculate_timing-exact, das_i2c_init-Offered}
use device_abstraction_stack.Cache.{maintain, has_dcache}
use device_abstraction_stack.Cache.Range.{cache_range}
use device_abstraction_stack.Cache.Cover.{
  Accepted, Refused, Decided, Covers, cache_range-Decided, maintain-Covers,
}
use device_abstraction_stack.Tests.Board.{board, fresh, ticking, installed, apart}

das_i2c_write_read_timeout-Answered_example :
    Answered ⦃p = board⦄ 7 9 ticking apart
      (das_i2c_write_read_timeout ⦃p = board⦄ 30 0 0x50 0x2400_0000 2 0x2400_0100 16 20 fresh)
das_i2c_write_read_timeout-Answered_example =
    das_i2c_write_read_timeout-Answered ⦃p = board⦄ 7 9 ticking apart 30 20 (omega arith)
      (omega arith) 0 0x50 0x2400_0000 2 0x2400_0100 16 fresh (installed 0)

timingr : TimingrDocumented board
timingr = record {
  presc = refl;
  presc_pos = refl;
  scldel_pos = refl;
  sdadel_pos = refl;
  sclh = refl;
  sclh_pos = refl;
  scll = refl;
  scll_pos = refl;
}

calculate_timing-readback_example :
    (calculate_timing ⦃p = board⦄ 63_000_001 400_000 ≡ err unsupported)
    ⊎ ((f : Fields) × (calculate_timing ⦃p = board⦄ 63_000_001 400_000
          ≡ ok (timing_word ⦃p = board⦄ f))
        × Fitting 63_000_001 400_000 f
        × (divider_of ⦃p = board⦄ (timing_word ⦃p = board⦄ f) ≡ (f.presc + 1) * (2 * (f.scl + 1)))
        × (63_000_001 / divider_of ⦃p = board⦄ (timing_word ⦃p = board⦄ f) ≤ 400_000))
calculate_timing-readback_example =
    calculate_timing-readback ⦃p = board⦄ 63_000_001 400_000 timingr (omega arith) (omega arith)
      (inr refl)

calculate_timing-exact_example :
    (timing : ℕ) × (calculate_timing ⦃p = board⦄ 32_000_000 100_000 ≡ ok timing)
    × (32_000_000 / divider_of ⦃p = board⦄ timing ≡ 100_000)
calculate_timing-exact_example =
    calculate_timing-exact ⦃p = board⦄ 32_000_000 100_000 timingr (inr (inl refl)) (inl refl)

das_i2c_init-Offered_example :
    let answer =
      (das_i2c_init ⦃p = board⦄ i2c1 (some (record { frequency_hz = 400_000 })) fresh).0 in
    (answer ≡ ok tt) ⊎ (answer ≡ err not_ready)
das_i2c_init-Offered_example = das_i2c_init-Offered ⦃p = board⦄ 400_000 fresh (inr refl)

cache_range-Decided_example : Decided 0x2400_0005 100 (cache_range 0x2400_0005 100)
cache_range-Decided_example =
    cache_range-Decided 0x2400_0005 100 (omega arith) (omega arith) (omega arith)

m7 : has_dcache ⦃p = board⦄ ≡ true
unfolding has_dcache
m7 = refl

-- An operation by address that the clock counts.
abbrev by_addr : ℕ → ℕ → ℕ → ℕ
by_addr first span s = s + 1

maintain-Covers_example :
    ((first : ℕ) × (span : ℕ) × Covers 0x2400_0005 100 first span
      × Accepted first span
      × (maintain ⦃p = board⦄ by_addr 0x2400_0005 100 fresh
          ≡ (ok tt, record fresh { hw = if has_bits 0 0x1_0000 then by_addr first span 0 else 0 })))
    ⊎ ((maintain ⦃p = board⦄ by_addr 0x2400_0005 100 fresh ≡ (err invalid_argument, fresh))
        × Refused 0x2400_0005 100)
maintain-Covers_example =
    maintain-Covers ⦃p = board⦄ by_addr 0x2400_0005 100 fresh m7 (omega arith) (omega arith)
      (omega arith)
