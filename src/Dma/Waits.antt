-- ===== src/Dma/Waits.antt =====
-- What a wait for a transfer does to the variables of the DMA driver.
use device_abstraction_stack.Base.{
  ℕ, zero, suc, ◌≡◌, arith, Bool, true, false, ◌⊎◌, inl, refl, ◌∙◌, ltb, ◌!=◌, not, if◌then◌else◌,
}
use device_abstraction_stack.Api.Dma.{DasDmaState, das_dma_wait_forever}
use device_abstraction_stack.Api.Time.{das_time_max_interval_ms}
use device_abstraction_stack.Machine.Platform.{Platform}
use device_abstraction_stack.Machine.World.{World, DmaVars}
use device_abstraction_stack.Machine.Monad.{
  M, Error, Outcome, ok, err, spinning, and_then, discard, fail, invalid_argument, ◌>>=◌, ◌>>◌,
  fail_if, return, timeout, io, not_ready,
}
use device_abstraction_stack.Time.{
  das_time_is_ready, das_time_now_ms, das_time_elapsed_ms, das_time_interval_elapsed,
  call_time_source, das_cortex_m_systick_now_ms,
}
use device_abstraction_stack.Dma.Handle.{stm32h755_dma_handle_index}
use device_abstraction_stack.Dma.Stream.{handle_valid, handle_index, stream_flags, set_active}
use device_abstraction_stack.Dma.Driver.{
  das_dma_get_state, das_dma_abort, das_dma_is_valid, wait_loop, das_dma_wait_timeout, das_dma_wait,
}
use device_abstraction_stack.Dma.Effect.{activate, get_state-Deactivated, abort-Deactivated}

module _ ⦃p : Platform⦄ where
  now-dma : (w : World p) → (das_time_now_ms w).1.dma ≡ w.dma
  unfolding das_time_now_ms call_time_source das_cortex_m_systick_now_ms
  now-dma w = ground arith

  elapsed-dma :
      (start interval : ℕ) (w : World p)
      → (das_time_interval_elapsed start interval w).1.dma ≡ w.dma
  unfolding das_time_interval_elapsed das_time_elapsed_ms das_time_is_ready
  elapsed-dma start interval w = ground (arith, now-dma w)

  -- The variables stay, or the stream of a token that is valid is no longer active.
  abbrev pub Deactivated : {A : Type 0} → ℕ → DmaVars → Outcome A × World p → Type 0
  Deactivated dma d r =
      (r.1.dma ≡ d)
      ⊎ ((handle_valid d dma ≡ true)
          × (r.1.dma ≡ activate (stm32h755_dma_handle_index dma) false d))

  busy-dma :
      (dma : ℕ) (w : World p)
      → (das_dma_get_state dma true w).0 ≡ ok DasDmaState.busy
      → (das_dma_get_state dma true w).1.dma ≡ w.dma
  unfolding das_dma_get_state handle_index stream_flags set_active
  busy-dma dma w h = ground arith

  -- One poll of a wait, for the result of the poll.
  poll-Deactivated :
      (dma : ℕ) (d : DmaVars) (r : Outcome DasDmaState × World p) (more : M (Unit {0}))
      → (r.0 ≡ ok DasDmaState.busy → r.1.dma ≡ d)
      → Deactivated dma d r
      → ((w1 : World p) → w1.dma ≡ d → Deactivated dma d (more w1))
      → let next : DasDmaState → M (Unit {0}) = λ state. elim state [
        | DasDmaState.complete ↦ return tt
        | DasDmaState.error ↦ fail io
        | DasDmaState.idle ↦ fail not_ready
        | DasDmaState.busy ↦ more
      ] in
        Deactivated dma d (and_then r next)
  poll-Deactivated dma d (ok DasDmaState.complete, w1) more busy h k = h
  poll-Deactivated dma d (ok DasDmaState.error, w1) more busy h k = h
  poll-Deactivated dma d (ok DasDmaState.idle, w1) more busy h k = h
  poll-Deactivated dma d (ok DasDmaState.busy, w1) more busy h k = k w1 (busy refl)
  poll-Deactivated dma d (err e, w1) more busy h k = h
  poll-Deactivated dma d (spinning, w1) more busy h k = h

  -- A call that leaves the variables alone, and what follows it.
  asked-Deactivated :
      {A : Type 0} (dma : ℕ) (d : DmaVars) (r : Outcome A × World p) (k : A → M (Unit {0}))
      → r.1.dma ≡ d
      → ((elapsed : A) (w1 : World p) → w1.dma ≡ d → Deactivated dma d (k elapsed w1))
      → Deactivated dma d (and_then r k)
  asked-Deactivated dma d (ok elapsed, w1) k h more = more elapsed w1 h
  asked-Deactivated dma d (err e, w1) k h more = inl h
  asked-Deactivated dma d (spinning, w1) k h more = inl h

  either-Deactivated :
      (dma : ℕ) (d : DmaVars) (test : Bool) (m n : M (Unit {0})) (w : World p)
      → Deactivated dma d (m w)
      → Deactivated dma d (n w)
      → Deactivated dma d ((if test then m else n) w)
  either-Deactivated dma d true m n w h k = h
  either-Deactivated dma d false m n w h k = k

  -- The abort at the end of the time, whose result is not looked at.
  expired-Deactivated :
      (dma : ℕ) (d : DmaVars) (e : Error) (r : Outcome (Unit {0}) × World p)
      → Deactivated dma d r
      → Deactivated dma d (and_then (discard r) (λ u. fail {A = Unit {0}} e))
  expired-Deactivated dma d e (ok a, w1) h = h
  expired-Deactivated dma d e (err x, w1) h = h
  expired-Deactivated dma d e (spinning, w1) h = h

  limit-dma :
      (finite : Bool) (start limit : ℕ) (w : World p)
      → let ask : M Bool = if finite then das_time_interval_elapsed start limit else return false in
        (ask w).1.dma ≡ w.dma
  limit-dma true start limit w = elapsed-dma start limit w
  limit-dma false start limit w = refl

  wait_loop-Deactivated :
      (fuel dma : ℕ) (finite : Bool) (start limit : ℕ) (w : World p)
      → Deactivated dma w.dma (wait_loop fuel dma finite start limit w)
  unfolding wait_loop
  wait_loop-Deactivated zero dma finite start limit w = inl refl
  wait_loop-Deactivated (suc fuel) dma finite start limit w =
      poll-Deactivated dma w.dma (das_dma_get_state dma true w) _ (busy-dma dma w)
        (get_state-Deactivated dma true w)
        λ w1 same.
          asked-Deactivated dma w.dma
            ((if finite then das_time_interval_elapsed start limit else return false) w1) _
            (limit-dma finite start limit w1 ∙ same)
            λ elapsed w2 still. rw (← still) (
              either-Deactivated dma w2.dma elapsed _ _ w2
                (expired-Deactivated dma w2.dma timeout (das_dma_abort dma w2)
                  (abort-Deactivated dma w2))
                (wait_loop-Deactivated fuel dma finite start limit w2))

  -- The preparation of a wait with a limit, in `das_dma_wait_timeout`.
  abbrev started : ℕ → M ℕ
  started timeout_ms = do
    fail_if (ltb das_time_max_interval_ms timeout_ms) invalid_argument
    ready ← das_time_is_ready
    fail_if (not ready) not_ready
    das_time_now_ms

  started-dma : (timeout_ms : ℕ) (w : World p) → (started timeout_ms w).1.dma ≡ w.dma
  unfolding das_time_is_ready
  started-dma timeout_ms w = ground (arith, now-dma w)

  pub wait_timeout-Deactivated :
      (fuel dma timeout_ms : ℕ) (w : World p)
      → Deactivated dma w.dma (das_dma_wait_timeout fuel dma timeout_ms w)
  unfolding das_dma_wait_timeout das_dma_is_valid
  wait_timeout-Deactivated fuel dma timeout_ms w =
      asked-Deactivated dma w.dma (fail_if (not (handle_valid w.dma dma)) invalid_argument w) _
        (ground arith)
        λ a w1 same.
          asked-Deactivated dma w.dma
            ((if timeout_ms != das_dma_wait_forever then started timeout_ms else return 0) w1) _
            (ground (arith, started-dma timeout_ms w1, same))
            λ start w2 still. rw (← still) (
              wait_loop-Deactivated fuel dma (timeout_ms != das_dma_wait_forever) start timeout_ms
                w2)

  pub wait-Deactivated :
      (fuel dma : ℕ) (w : World p) → Deactivated dma w.dma (das_dma_wait fuel dma w)
  unfolding das_dma_wait
  wait-Deactivated fuel dma w = wait_timeout-Deactivated fuel dma das_dma_wait_forever w
