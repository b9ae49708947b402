-- ===== src/Dma/Invariant.antt =====
-- The consistency of the stream table.
use device_abstraction_stack.Base.{ℕ, ◌<◌, ◌≡◌, arith, Bool, true, List, [], ◌∷◌}
use device_abstraction_stack.Machine.Platform.{Platform}
use device_abstraction_stack.Machine.World.{World, DmaVars}
use device_abstraction_stack.Dma.Token.{Issued, next_generation-Issued}
use device_abstraction_stack.Dma.Stream.{dma_stream_count}
use device_abstraction_stack.Dma.Driver.{claim, unclaim}
use device_abstraction_stack.Dma.Live.{handle_valid_iff}
use device_abstraction_stack.Dma.Step.{
  Step, keep, claims, frees, configures, activates, deactivates, Call, call, call-Step,
}

-- Only streams that exist are claimed, under a generation that may be issued; a stream is
-- configured only while it is claimed, and active only while it is configured.
pub record IsConsistent (d : DmaVars) : Type 0 where
  pub exists : (i : ℕ) → d.g_dma_claimed i ≡ true → i < dma_stream_count
  pub issued : (i : ℕ) → d.g_dma_claimed i ≡ true → Issued (d.g_dma_generation i)
  pub owned : (i : ℕ) → d.g_dma_configured i ≡ true → d.g_dma_claimed i ≡ true
  pub ready : (i : ℕ) → d.g_dma_active i ≡ true → d.g_dma_configured i ≡ true

Step-IsConsistent :
    {d : DmaVars} {may : Bool} {e : DmaVars} → Step d may e → IsConsistent d → IsConsistent e
unfolding claim unclaim
Step-IsConsistent {d} {e} (keep same) v = rw same v
Step-IsConsistent {d} {e} (claims index may below free vars) v = rw vars (record {
  exists = λ i h. ground (arith, v.exists i);
  issued = λ i h. ground (arith, v.issued i, next_generation-Issued (d.g_dma_generation i));
  owned = λ i h. ground (arith, v.owned i);
  ready = λ i h. ground (arith, v.ready i);
})
Step-IsConsistent {d} {e} (frees dma valid vars) v = rw vars (record {
  exists = λ i h. ground (arith, v.exists i);
  issued = λ i h. ground (arith, v.issued i);
  owned = λ i h. ground (arith, v.owned i);
  ready = λ i h. ground (arith, v.ready i);
})
Step-IsConsistent {d} {e} (configures dma config valid vars) v = rw vars (record {
  exists = v.exists;
  issued = v.issued;
  owned = λ i h. ground (arith, v.owned i, handle_valid_iff d dma valid);
  ready = λ i h. ground (arith, v.ready i);
})
Step-IsConsistent {d} {e} (activates dma valid ready vars) v = rw vars (record {
  exists = v.exists;
  issued = v.issued;
  owned = v.owned;
  ready = λ i h. ground (arith, v.ready i);
})
Step-IsConsistent {d} {e} (deactivates dma valid vars) v = rw vars (record {
  exists = v.exists;
  issued = v.issued;
  owned = v.owned;
  ready = λ i h. ground (arith, v.ready i);
})

module _ ⦃p : Platform⦄ where
  abbrev pub calls : List Call → World p → World p
  calls [] w = w
  calls (c ∷ cs) w = calls cs (call c w)

  -- Every sequence of driver calls, waits included, with any arguments and any behaviour of the
  -- hardware, keeps a
  -- consistent stream table consistent.
  pub calls-IsConsistent :
      (cs : List Call) (w : World p) → IsConsistent w.dma → IsConsistent (calls cs w).dma
  calls-IsConsistent [] w v = v
  calls-IsConsistent (c ∷ cs) w v =
      calls-IsConsistent cs (call c w) (Step-IsConsistent (call-Step c w) v)
