-- ===== src/Time/Limit.antt =====
-- Waits with a finite limit: they begin at a read of the time, stay within their limit, and have
-- fuel for all their polls.
use device_abstraction_stack.Base.{ℕ, ◌+◌, ◌-◌, ◌*◌, ◌≤◌, ◌<◌, ◌≡◌, inl, inr, arith}
use device_abstraction_stack.Base.Rounding.{mul_mono}
use device_abstraction_stack.Machine.Platform.{Platform}
use device_abstraction_stack.Machine.World.{World}
use device_abstraction_stack.Machine.Monad.{Outcome}
use device_abstraction_stack.Machine.Success.{Returned}
use device_abstraction_stack.Time.Clock.{Ticking, Installed}
use device_abstraction_stack.Time.Waiting.{Apart, Waiting, polls_left, asked}

module _ ⦃p : Platform⦄ (source context : ℕ) (t : Ticking p source context)
    (apart : Apart p source context t) where
  abbrev pub Within : ℕ → ℕ → World p → Type 0
  Within start limit w = Waiting source context t start limit w

  -- Accesses to the registers and to memory keep a wait within its limit.
  pub after :
      {start limit : ℕ} {w : World p} (s : p.State)
      → Within start limit w
      → t.now s ≡ t.now w.hw
      → Within start limit (record w { hw = s })
  after s v same = record {
    installed = record {
      source_set = v.installed.source_set;
      context_set = v.installed.context_set;
    };
    begun = omega (arith, v.begun);
    within = omega (arith, v.within);
  }

  -- Fuel for a whole wait is enough wherever the wait has come to.
  pub enough :
      (fuel start limit : ℕ) (w : World p)
      → (limit + 1) * (t.patience + 1) ≤ fuel
      → Within start limit w
      → polls_left source context t start limit w < fuel
  enough fuel start limit w f v = omega (
    arith,
    t.patient w.hw,
    mul_mono (start + limit - t.now w.hw) limit (t.patience + 1) (omega (arith, v.begun)),
  )

  -- A wait begins with the read of the time that prepares it.
  pub begun :
      (limit : ℕ) (w : World p)
      → Installed source context w
      → Within (t.now (asked source context t w).hw) limit (asked source context t w)
  begun limit w i = record {
    installed = record { source_set = i.source_set; context_set = i.context_set };
    begun = omega arith;
    within = omega arith;
  }

  -- The call has returned, with the time source still installed if it returned `DAS_OK`.
  abbrev pub Answered : Outcome (Unit {0}) × World p → Type 0
  Answered r = Returned (λ w. Installed source context w) r

  pub answered :
      {start limit : ℕ} (r : Outcome (Unit {0}) × World p)
      → Returned (Within start limit) r
      → Answered r
  answered r (inl (e, v)) = inl (e, v.installed)
  answered r (inr failed) = inr failed
