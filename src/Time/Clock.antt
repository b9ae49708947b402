-- ===== src/Time/Clock.antt =====
-- What the code assumes of an application's time source: "the selected source must advance
-- independently" (src/common/time.c), and it is read at least once in each half of its range.
use device_abstraction_stack.Base.{
  ℕ, ◌+◌, ◌-◌, ◌*◌, ◌%◌, ◌^◌, ◌≤◌, ◌<◌, ◌≡◌, ◌⊎◌, inl, inr, suc, some, arith, u32, sub32,
}
use device_abstraction_stack.Base.Rounding.{mul_mono}
use device_abstraction_stack.Machine.Platform.{Platform}
use device_abstraction_stack.Machine.World.{World, external}
use device_abstraction_stack.Machine.Monad.{ok}
use device_abstraction_stack.Time.{das_time_now_ms, call_time_source}

-- `now s` is the time that the source last reported, in milliseconds and without wrap-around. A call
-- may report the same time again, but at most `patience` times in a row.
pub record Ticking (p : Platform) (source context : ℕ) : Type 0 where
  pub now : p.State → ℕ
  pub patience : ℕ
  pub stalls : p.State → ℕ
  pub value :
      (s : p.State)
      → (p.call_source source context s).0 ≡ now (p.call_source source context s).1 % 2 ^ 32
  pub grows : (s : p.State) → now s ≤ now (p.call_source source context s).1
  pub gap : (s : p.State) → now (p.call_source source context s).1 ≤ now s + 2 ^ 31
  pub patient : (s : p.State) → stalls s ≤ patience
  pub moves :
      (s : p.State)
      → (now s < now (p.call_source source context s).1)
        ⊎ (stalls (p.call_source source context s).1 < stalls s)

-- The source and context are the installed ones.
pub record Installed {p : Platform} (source context : ℕ) (w : World p) : Type 0 where
  pub source_set : w.time.g_time_source ≡ some (external source)
  pub context_set : w.time.g_time_source_context ≡ context

-- Differences of wrapped times are exact below 2 ^ 32.
pub sub32-u32 : (t u : ℕ) → u ≤ t → t < u + 2 ^ 32 → sub32 (u32 t) (u32 u) ≡ t - u
sub32-u32 t u h k = omega arith

-- Progress towards a time `a` ahead, when each time is reported at most `k` times more.
pub progress :
    (k a a' s s' : ℕ) → a' ≤ a → s' ≤ k → (a' < a) ⊎ (s' < s) → a' * (k + 1) + s' < a * (k + 1) + s
progress k a a' s s' h l (inl m) = omega (arith, mul_mono (suc a') a (k + 1) m)
progress k a a' s s' h l (inr m) = omega (arith, mul_mono a' a (k + 1) h)

module _ ⦃p : Platform⦄ (source context : ℕ) (t : Ticking p source context) where
  -- A read of the time, with the source installed.
  pub das_time_now_ms_lem :
      (w : World p)
      → Installed source context w
      → das_time_now_ms w ≡ (
        ok (u32 (t.now (p.call_source source context w.hw).1)),
        record w { hw = (p.call_source source context w.hw).1 },
      )
  unfolding das_time_now_ms call_time_source
  das_time_now_ms_lem w i = ground (arith, i.source_set, i.context_set, t.value w.hw)
