-- ===== src/Time/Deadline.antt =====
-- Intervals and deadlines against unwrapped time.
use device_abstraction_stack.Base.{
  ap, ℕ, ◌+◌, ◌-◌, ◌^◌, ◌≤◌, ◌<◌, ◌≡◌, arith, u32, sub32, leb, true,
}
use device_abstraction_stack.Api.Time.{das_time_max_interval_ms}
use device_abstraction_stack.Machine.Platform.{Platform}
use device_abstraction_stack.Machine.World.{World}
use device_abstraction_stack.Machine.Monad.{ok}
use device_abstraction_stack.Time.{
  das_time_is_ready, das_time_elapsed_ms, das_time_interval_elapsed, das_time_deadline_after,
  das_time_deadline_reached, interval_valid,
}
use device_abstraction_stack.Time.Clock.{Ticking, Installed, sub32-u32, das_time_now_ms_lem}

-- Half of the range decides whether a wrapped time lies behind.
half_range :
    (t until : ℕ)
    → t < until + 2 ^ 31
    → until ≤ t + 2 ^ 31 - 1
    → leb (sub32 (u32 t) (u32 until)) das_time_max_interval_ms ≡ leb until t
half_range t until h k = ground arith

module _ ⦃p : Platform⦄ (source context : ℕ) (t : Ticking p source context) where
  -- The time that the source reports when it is read next.
  abbrev pub reading : World p → ℕ
  reading w = t.now (p.call_source source context w.hw).1

  -- The test of an interval, and the one read of the time that it makes.
  pub das_time_interval_elapsed-reading :
      (w : World p) (start interval : ℕ)
      → Installed source context w
      → interval ≤ das_time_max_interval_ms
      → start ≤ reading w
      → reading w < start + 2 ^ 32
      → das_time_interval_elapsed (u32 start) interval w ≡ (
        ok (leb (start + interval) (reading w)),
        record w { hw = (p.call_source source context w.hw).1 },
      )
  unfolding das_time_interval_elapsed das_time_elapsed_ms das_time_is_ready interval_valid
  das_time_interval_elapsed-reading w start interval i d lo hi = ground (
    arith,
    das_time_now_ms_lem source context t w i,
    sub32-u32 (reading w) start lo hi,
    i.source_set,
  )

  -- From a time `start` less than 2 ^ 32 ms back, and for an admissible interval,
  -- `das_time_interval_elapsed` tells exactly whether the source has advanced by the interval.
  pub das_time_interval_elapsed_lem :
      (w : World p) (start interval : ℕ)
      → Installed source context w
      → interval ≤ das_time_max_interval_ms
      → start ≤ reading w
      → reading w < start + 2 ^ 32
      → (das_time_interval_elapsed (u32 start) interval w).0
        ≡ ok (leb (start + interval) (reading w))
  das_time_interval_elapsed_lem w start interval i d lo hi =
      ap (λ r. r.0) (das_time_interval_elapsed-reading w start interval i d lo hi)

  -- A deadline that `das_time_deadline_after` computed in `w` and that is tested in `w'`, less
  -- than 2 ^ 31 ms past it and not before it was made, is reported as reached exactly when the source
  -- has advanced by the delay, also across a wrap-around.
  pub das_time_deadline_reached_lem :
      (w w' : World p) (delay deadline : ℕ)
      → Installed source context w
      → Installed source context w'
      → delay ≤ das_time_max_interval_ms
      → reading w ≤ reading w'
      → reading w' < reading w + delay + 2 ^ 31
      → (das_time_deadline_after delay true w).0 ≡ ok deadline
      → (das_time_deadline_reached deadline w').0 ≡ ok (leb (reading w + delay) (reading w'))
  unfolding das_time_deadline_after das_time_deadline_reached das_time_is_ready interval_valid
  das_time_deadline_reached_lem w w' delay deadline i i' d lo hi e =
      let due : deadline ≡ u32 (reading w + delay) =
        ground (arith, das_time_now_ms_lem source context t w i, i.source_set) in
      rw due (
        ground (
          arith,
          das_time_now_ms_lem source context t w' i',
          half_range (reading w') (reading w + delay) hi (omega arith),
          i'.source_set,
        ))
