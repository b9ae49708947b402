-- ===== src/Time/Delay.antt =====
-- `das_delay_ms` under a source that advances: it returns, and not before the time is over.
use device_abstraction_stack.Base.{
  ℕ, zero, suc, ◌+◌, ◌-◌, ◌*◌, ◌≤◌, ◌<◌, ◌≡◌, ◌⊎◌, inl, inr, arith, u32, sub32, refl, ltb, ◌==◌,
  Bool-cases, ltb→lt,
}
use device_abstraction_stack.Api.Time.{das_time_max_interval_ms}
use device_abstraction_stack.Machine.Platform.{Platform}
use device_abstraction_stack.Machine.World.{World}
use device_abstraction_stack.Machine.Monad.{Outcome, ok}
use device_abstraction_stack.Time.{das_delay_ms, delay_loop, das_time_is_ready, interval_valid}
use device_abstraction_stack.Time.Clock.{
  Ticking, Installed, sub32-u32, progress, das_time_now_ms_lem,
}

module _ ⦃p : Platform⦄ (source context : ℕ) (t : Ticking p source context) where
  -- The call has returned `DAS_OK`, changed nothing but the hardware, and the time is `until`.
  abbrev pub WaitedUntil : ℕ → World p → Outcome (Unit {0}) × World p → Type 0
  WaitedUntil until w r = (s : p.State) × (r ≡ (ok tt, record w { hw = s })) × (until ≤ t.now s)

  delay_loop-WaitedUntil :
      (fuel start duration : ℕ) (w : World p)
      → Installed source context w
      → duration ≤ das_time_max_interval_ms
      → start ≤ t.now w.hw
      → t.now w.hw ≤ start + duration
      → (start + duration - t.now w.hw) * (t.patience + 1) + t.stalls w.hw < fuel
      → WaitedUntil (start + duration) w (delay_loop fuel (u32 start) duration w)
  unfolding delay_loop
  delay_loop-WaitedUntil zero start duration w i d lo hi f = absurd (omega arith)
  delay_loop-WaitedUntil (suc fuel) start duration w i d lo hi f =
      let s = (p.call_source source context w.hw).1 in
      let exact : sub32 (u32 (t.now s)) (u32 start) ≡ t.now s - start =
        sub32-u32 (t.now s) start (omega (arith, t.grows w.hw)) (omega (arith, t.gap w.hw)) in
      rw (das_time_now_ms_lem source context t w i, exact)
        (elim (Bool-cases (ltb (t.now s - start) duration)) [
          | inl more ↦
              let shorter =
                progress t.patience (start + duration - t.now w.hw) (start + duration - t.now s)
                  (t.stalls w.hw) (t.stalls s) (omega (arith, t.grows w.hw)) (t.patient s)
                  (fewer s (ltb→lt _ _ more) (t.moves w.hw)) in
              rw more (
                delay_loop-WaitedUntil fuel start duration (record w { hw = s })
                  (record { source_set = i.source_set; context_set = i.context_set }) d
                  (omega (arith, t.grows w.hw)) (ground arith) (omega (arith, shorter)))
          | inr done ↦ rw done (s, refl, ground (arith, t.grows w.hw))
        ])
    where
      fewer :
          (s : p.State)
          → t.now s - start < duration
          → (t.now w.hw < t.now s) ⊎ (t.stalls s < t.stalls w.hw)
          → (start + duration - t.now s < start + duration - t.now w.hw)
            ⊎ (t.stalls s < t.stalls w.hw)
      fewer s h (inl m) = inl (omega arith)
      fewer s h (inr m) = inr m

  -- Under an advancing source, and with fuel for more than `(duration + 1) * (patience + 1)` polls,
  -- `das_delay_ms` of an admissible duration returns `DAS_OK`, changes no variable of the drivers,
  -- and the source has advanced by the duration at least: the wait ends, and not early, also across
  -- a wrap-around of the 32-bit time.
  pub das_delay_ms-WaitedUntil :
      (fuel duration : ℕ) (w : World p)
      → Installed source context w
      → duration ≤ das_time_max_interval_ms
      → (duration + 1) * (t.patience + 1) < fuel
      → WaitedUntil (t.now w.hw + duration) w (das_delay_ms fuel duration w)
  unfolding das_delay_ms das_time_is_ready interval_valid
  das_delay_ms-WaitedUntil fuel duration w i d f =
      let s = (p.call_source source context w.hw).1 in
      let w' : World p = record w { hw = s } in
      let enough : (t.now s + duration - t.now s) * (t.patience + 1) + t.stalls s < fuel =
        let span : t.now s + duration - t.now s ≡ duration = omega arith in
        rw span (omega (arith, t.patient s)) in
      let (s', e, h) =
        delay_loop-WaitedUntil fuel (t.now s) duration w'
          (record { source_set = i.source_set; context_set = i.context_set }) d (omega arith)
          (omega arith) enough in
      elim (Bool-cases (duration == 0)) [
        | inl none_due ↦ (w.hw, ground arith, ground arith)
        | inr due ↦ (
          s',
          ground (arith, das_time_now_ms_lem source context t w i),
          omega (arith, t.grows w.hw),
        )
      ]
