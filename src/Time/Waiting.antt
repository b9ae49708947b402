-- ===== src/Time/Waiting.antt =====
-- Waits with a time limit: drivers poll registers and ask for the time in turn.
use device_abstraction_stack.Base.{
  ℕ, ◌+◌, ◌-◌, ◌*◌, ◌≤◌, ◌<◌, ◌≡◌, ◌⊎◌, inl, inr, arith, leb, false, u32,
}
use device_abstraction_stack.Api.Time.{das_time_max_interval_ms}
use device_abstraction_stack.Machine.Reg.{Reg}
use device_abstraction_stack.Machine.Platform.{Platform}
use device_abstraction_stack.Machine.World.{World}
use device_abstraction_stack.Machine.Monad.{ok}
use device_abstraction_stack.Time.{das_time_interval_elapsed}
use device_abstraction_stack.Time.Clock.{Ticking, Installed, progress}
use device_abstraction_stack.Time.Deadline.{das_time_interval_elapsed-reading}

-- Registers and memory do not drive the time source: an access leaves what it last reported, and how
-- often it may still repeat itself.
pub record Apart (p : Platform) (source context : ℕ) (t : Ticking p source context) : Type 0 where
  pub reads :
      (r : Reg) (s : p.State)
      → (t.now (p.read r s).1 ≡ t.now s) × (t.stalls (p.read r s).1 ≡ t.stalls s)
  pub writes :
      (r : Reg) (v : ℕ) (s : p.State)
      → (t.now (p.write r v s) ≡ t.now s) × (t.stalls (p.write r v s) ≡ t.stalls s)
  pub loads :
      (a : ℕ) (s : p.State)
      → (t.now (p.load_byte a s).1 ≡ t.now s) × (t.stalls (p.load_byte a s).1 ≡ t.stalls s)
  pub stores :
      (a v : ℕ) (s : p.State)
      → (t.now (p.store_byte a v s) ≡ t.now s) × (t.stalls (p.store_byte a v s) ≡ t.stalls s)

module _ ⦃p : Platform⦄ (source context : ℕ) (t : Ticking p source context) where
  -- A wait that began at `start` is within its limit.
  pub record Waiting (start limit : ℕ) (w : World p) : Type 0 where
    pub installed : Installed source context w
    pub begun : start ≤ t.now w.hw
    pub within : t.now w.hw ≤ start + limit

  -- How many more polls a wait can make.
  abbrev pub polls_left : ℕ → ℕ → World p → ℕ
  polls_left start limit w = (start + limit - t.now w.hw) * (t.patience + 1) + t.stalls w.hw

  -- The world after one more read of the time.
  abbrev pub asked : World p → World p
  asked w = record w { hw = (p.call_source source context w.hw).1 }

  pub elapsed-Waiting :
      (start limit : ℕ) (w : World p)
      → Waiting start limit w
      → limit ≤ das_time_max_interval_ms
      → das_time_interval_elapsed (u32 start) limit w
        ≡ (ok (leb (start + limit) (t.now (asked w).hw)), asked w)
  elapsed-Waiting start limit w v h =
      das_time_interval_elapsed-reading source context t w start limit v.installed h
        (omega (arith, v.begun, t.grows w.hw)) (omega (arith, v.within, t.gap w.hw))

  -- A wait that has not expired goes on, with fewer polls left.
  pub asked-Waiting :
      (start limit : ℕ) (w : World p)
      → Waiting start limit w
      → leb (start + limit) (t.now (asked w).hw) ≡ false
      → Waiting start limit (asked w)
        × (polls_left start limit (asked w) < polls_left start limit w)
  asked-Waiting start limit w v early =
      let s = (p.call_source source context w.hw).1 in
      let sooner : t.now s < start + limit = ground arith in
      (
        record {
          installed = record {
            source_set = v.installed.source_set;
            context_set = v.installed.context_set;
          };
          begun = omega (arith, v.begun, t.grows w.hw);
          within = omega arith;
        },
        progress t.patience (start + limit - t.now w.hw) (start + limit - t.now s) (t.stalls w.hw)
            (t.stalls s) (omega (arith, t.grows w.hw)) (t.patient s)
            (fewer s sooner (t.moves w.hw)),
      )
    where
      fewer :
          (s : p.State)
          → t.now s < start + limit
          → (t.now w.hw < t.now s) ⊎ (t.stalls s < t.stalls w.hw)
          → (start + limit - t.now s < start + limit - t.now w.hw) ⊎ (t.stalls s < t.stalls w.hw)
      fewer s h (inl m) = inl (omega arith)
      fewer s h (inr m) = inr m
