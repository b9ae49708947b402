-- ===== src/Dma/Stale.antt =====
-- A released token stays invalid: the generation of its stream comes round only after as many
-- claims as there are generations.
use device_abstraction_stack.Base.{
  ℕ, suc, ◌+◌, ◌-◌, ◌<◌, ◌≡◌, arith, Bool, true, false, List, [], ◌⊎◌, inl, inr, ◌*◌, Bool-cases,
  ◌∷◌, ◌==◌, if◌then◌else◌, ltb,
}
use device_abstraction_stack.Machine.Platform.{Platform}
use device_abstraction_stack.Machine.World.{World, DmaVars}
use device_abstraction_stack.Machine.Monad.{ok}
use device_abstraction_stack.Dma.Handle.{
  stm32h755_dma_next_generation, stm32h755_dma_handle_generation_limit, stm32h755_dma_handle_index,
}
use device_abstraction_stack.Dma.Token.{Issued}
use device_abstraction_stack.Dma.Stream.{handle_valid}
use device_abstraction_stack.Dma.Driver.{claim, unclaim, das_dma_release}
use device_abstraction_stack.Dma.Effect.{release-Released}
use device_abstraction_stack.Dma.Live.{handle_valid_iff}
use device_abstraction_stack.Dma.Step.{
  Step, keep, claims, frees, configures, activates, deactivates, Call, release, call, call-Step,
  is_acquire,
}
use device_abstraction_stack.Dma.Invariant.{calls}

-- The generations that are issued are 1 up to this number.
abbrev pub generations : ℕ
generations = stm32h755_dma_handle_generation_limit - 1

-- The generation `n` claims after `g`, for `n` below the number of generations.
abbrev later : ℕ → ℕ → ℕ
later g n = if ltb (g + n) stm32h755_dma_handle_generation_limit then g + n else g + n - generations

-- Since stream `i` was released at generation `g`, it has been claimed `n` times.
record Since (g i n : ℕ) (d : DmaVars) : Type 0 where
  generation : d.g_dma_generation i ≡ later g n
  unclaimed : n ≡ 0 → d.g_dma_claimed i ≡ false

next-later :
    (g n : ℕ)
    → Issued g
    → suc n < generations
    → stm32h755_dma_next_generation (later g n) ≡ later g (suc n)
unfolding stm32h755_dma_next_generation
next-later g n h k = ground arith

-- A step claims stream `i` once at most, and only if it may claim.
Step-Since :
    {d : DmaVars} {may : Bool} {e : DmaVars} (g i n : ℕ)
    → Issued g
    → (may ≡ true → suc n < generations)
    → Step d may e
    → Since g i n d
    → Since g i n e ⊎ ((may ≡ true) × Since g i (suc n) e)
unfolding claim unclaim
Step-Since g i n h k (keep same) s = inl (rw same s)
Step-Since {d} {may} {e} g i n h k (claims index allowed below free vars) s =
    elim (Bool-cases (index == i)) [
      | inl hit ↦ inr (
        allowed,
        record {
          generation = ground (arith, next-later g n h (k allowed), s.generation);
          unclaimed = λ z. absurd (omega arith);
        },
      )
      | inr other ↦ inl (record {
        generation = ground (arith, s.generation);
        unclaimed = λ z. ground (arith, s.unclaimed z);
      })
    ]
Step-Since g i n h k (frees dma valid vars) s = inl (record {
  generation = ground (arith, s.generation);
  unclaimed = λ z. ground (arith, s.unclaimed z);
})
Step-Since g i n h k (configures dma config valid vars) s = inl (record {
  generation = ground (arith, s.generation);
  unclaimed = λ z. ground (arith, s.unclaimed z);
})
Step-Since g i n h k (activates dma valid ready vars) s = inl (record {
  generation = ground (arith, s.generation);
  unclaimed = λ z. ground (arith, s.unclaimed z);
})
Step-Since g i n h k (deactivates dma valid vars) s = inl (record {
  generation = ground (arith, s.generation);
  unclaimed = λ z. ground (arith, s.unclaimed z);
})

-- Under fewer claims than there are generations, the stream is free or has another generation.
Since-invalid :
    (d : DmaVars) (dma n : ℕ) {g : ℕ}
    → Issued g
    → n < generations
    → dma ≡ g * 8 + stm32h755_dma_handle_index dma
    → Since g (stm32h755_dma_handle_index dma) n d
    → handle_valid d dma ≡ false
Since-invalid d dma n {g} h k e s = elim (Bool-cases (handle_valid d dma)) [
  | inl valid ↦ absurd (clash (handle_valid_iff d dma valid))
  | inr stale ↦ stale
]
  where
    clash :
        (d.g_dma_claimed (stm32h755_dma_handle_index dma) ≡ true)
          × (Issued (d.g_dma_generation (stm32h755_dma_handle_index dma)))
          × (dma
              ≡ d.g_dma_generation (stm32h755_dma_handle_index dma) * 8
                + stm32h755_dma_handle_index dma)
          × (stm32h755_dma_handle_index dma < 8)
        → ⊥
    clash (claimed, issued, same, below) = ground (arith, s.generation, s.unclaimed)

Since-unclaim :
    (d : DmaVars) (i : ℕ)
    → Issued (d.g_dma_generation i)
    → Since (d.g_dma_generation i) i 0 (unclaim i d)
unfolding unclaim
Since-unclaim d i h = record { generation = ground arith; unclaimed = λ z. ground arith }

-- The calls of `das_dma_acquire` among some calls.
unfoldable pub acquires : List Call → ℕ
acquires [] = 0
acquires (c ∷ cs) = if is_acquire c then suc (acquires cs) else acquires cs

module _ ⦃p : Platform⦄ where
  calls-invalid :
      (dma : ℕ) {g : ℕ}
      → Issued g
      → dma ≡ g * 8 + stm32h755_dma_handle_index dma
      → (cs : List Call) (n : ℕ) (w : World p) → n + acquires cs < generations
      → Since g (stm32h755_dma_handle_index dma) n w.dma
      → handle_valid (calls cs w).dma dma ≡ false
  unfolding acquires
  calls-invalid dma h e [] n w k s = Since-invalid w.dma dma n h (omega arith) e s
  calls-invalid dma {g} h e (c ∷ cs) n w k s =
      elim (Step-Since g (stm32h755_dma_handle_index dma) n h (λ t. ground arith) (call-Step c w)
        s) [
          | inl same ↦ calls-invalid dma h e cs n (call c w) (ground arith) same
          | inr (t, next) ↦ calls-invalid dma h e cs (suc n) (call c w) (ground arith) next
        ]

  -- A token that was released stays invalid through every sequence of driver calls, waits included,
  -- in which `das_dma_acquire` is called less than 2 ^ 29 - 2 times, whatever else is called, by
  -- whoever, and whatever the hardware does.
  pub released_stays_invalid :
      (dma : ℕ) (cs : List Call) (w : World p)
      → (das_dma_release dma w).0 ≡ ok tt
      → acquires cs < generations
      → handle_valid (calls cs (call (release dma) w)).dma dma ≡ false
  unfolding call
  released_stays_invalid dma cs w done k = elim (release-Released dma w) [
    | inl (failed, vars) ↦ absurd (failed done)
    | inr (finished, valid, vars) ↦
        let (claimed, issued, sum, below) = handle_valid_iff w.dma dma valid in
        calls-invalid dma issued sum cs 0 (das_dma_release dma w).1 (omega arith)
          (freed w vars issued)
  ]
    where
      freed :
          (w : World p)
          → (das_dma_release dma w).1.dma ≡ unclaim (stm32h755_dma_handle_index dma) w.dma
          → Issued (w.dma.g_dma_generation (stm32h755_dma_handle_index dma))
          → Since
              (w.dma.g_dma_generation (stm32h755_dma_handle_index dma))
              (stm32h755_dma_handle_index dma)
              0
              (das_dma_release dma w).1.dma
      freed w vars issued = rw vars (Since-unclaim w.dma (stm32h755_dma_handle_index dma) issued)
