-- ===== src/Dma/Step.antt =====
-- What a call of the DMA driver may do to its variables: the steps of the stream table.
use device_abstraction_stack.Base.{
  ℕ, ◌<◌, ◌≡◌, Bool, true, false, inl, inr, Option, none, some, refl, arith,
}
use device_abstraction_stack.Api.Dma.{DasDmaConfig}
use device_abstraction_stack.Machine.Platform.{Platform}
use device_abstraction_stack.Machine.World.{World, DmaVars}
use device_abstraction_stack.Machine.Monad.{Outcome}
use device_abstraction_stack.Dma.Waits.{Deactivated, wait_timeout-Deactivated, wait-Deactivated}
use device_abstraction_stack.Dma.Handle.{stm32h755_dma_handle_index}
use device_abstraction_stack.Dma.Stream.{
  handle_valid, handle_index, dma_stream_count, stm32h755_dma_set_request,
}
use device_abstraction_stack.Dma.Driver.{
  claim, unclaim, das_dma_acquire, das_dma_release, das_dma_get_state, das_dma_abort, das_dma_start,
  das_dma_configure, das_dma_is_valid, das_dma_get_remaining, das_dma_wait_timeout, das_dma_wait,
  das_dma_get_irq,
}
use device_abstraction_stack.Dma.Frame.{set_request-KeepsVars}
use device_abstraction_stack.Dma.Effect.{
  configure_vars, activate, release-Released, configure-Configured, start-Activated,
  get_state-Deactivated, abort-Deactivated,
}
use device_abstraction_stack.Dma.Live.{acquire-Searched}

-- Each step but a claim is made by the holder of a token that is valid at that moment. The Boolean
-- says whether the step may be a claim.
pub data Step (d : DmaVars) : Bool → DmaVars → Type 0 where
  keep : {may : Bool} {e : DmaVars} → e ≡ d → Step d may e
  claims :
      {may : Bool} {e : DmaVars} (index : ℕ)
      → may ≡ true
      → index < dma_stream_count
      → d.g_dma_claimed index ≡ false
      → e ≡ claim index d
      → Step d may e
  frees :
      {may : Bool} {e : DmaVars} (dma : ℕ)
      → handle_valid d dma ≡ true
      → e ≡ unclaim (stm32h755_dma_handle_index dma) d
      → Step d may e
  configures :
      {may : Bool} {e : DmaVars} (dma : ℕ) (config : DasDmaConfig)
      → handle_valid d dma ≡ true
      → e ≡ configure_vars (stm32h755_dma_handle_index dma) config d
      → Step d may e
  activates :
      {may : Bool} {e : DmaVars} (dma : ℕ)
      → handle_valid d dma ≡ true
      → d.g_dma_configured (stm32h755_dma_handle_index dma) ≡ true
      → e ≡ activate (stm32h755_dma_handle_index dma) true d
      → Step d may e
  deactivates :
      {may : Bool} {e : DmaVars} (dma : ℕ)
      → handle_valid d dma ≡ true
      → e ≡ activate (stm32h755_dma_handle_index dma) false d
      → Step d may e

-- A call of a function of dma.h or dma_internal.h, with its arguments, null pointers included. A wait
-- has the fuel for its polls; one that has used it up is in the state of its last poll.
pub data Call : Type 0 where
  acquire : (given : Bool) → Call
  release : (dma : ℕ) → Call
  is_valid : (dma : ℕ) → Call
  configure : (dma : ℕ) (config : Option DasDmaConfig) → Call
  set_request : (dma request : ℕ) → Call
  start : (dma source destination count : ℕ) → Call
  get_state : (dma : ℕ) (given : Bool) → Call
  get_remaining : (dma : ℕ) (given : Bool) → Call
  wait_timeout : (fuel dma timeout_ms : ℕ) → Call
  wait : (fuel dma : ℕ) → Call
  abort : (dma : ℕ) → Call
  get_irq : (dma : ℕ) (given : Bool) → Call

abbrev pub is_acquire : Call → Bool
is_acquire (acquire given) = true
is_acquire _ = false

module _ ⦃p : Platform⦄ where
  unfoldable pub call : Call → World p → World p
  call (acquire given) w = (das_dma_acquire given w).1
  call (release dma) w = (das_dma_release dma w).1
  call (is_valid dma) w = (das_dma_is_valid dma w).1
  call (configure dma config) w = (das_dma_configure dma config w).1
  call (set_request dma request) w = (stm32h755_dma_set_request dma request w).1
  call (start dma source destination count) w = (das_dma_start dma source destination count w).1
  call (get_state dma given) w = (das_dma_get_state dma given w).1
  call (get_remaining dma given) w = (das_dma_get_remaining dma given w).1
  call (wait_timeout fuel dma timeout_ms) w = (das_dma_wait_timeout fuel dma timeout_ms w).1
  call (wait fuel dma) w = (das_dma_wait fuel dma w).1
  call (abort dma) w = (das_dma_abort dma w).1
  call (get_irq dma given) w = (das_dma_get_irq dma given w).1

  null_acquire-dma : (w : World p) → (das_dma_acquire false w).1.dma ≡ w.dma
  unfolding das_dma_acquire
  null_acquire-dma w = ground arith

  null_configure-dma : (dma : ℕ) (w : World p) → (das_dma_configure dma none w).1.dma ≡ w.dma
  unfolding das_dma_configure handle_index
  null_configure-dma dma w = ground arith

  get_remaining-dma :
      (dma : ℕ) (given : Bool) (w : World p) → (das_dma_get_remaining dma given w).1.dma ≡ w.dma
  unfolding das_dma_get_remaining handle_index
  get_remaining-dma dma given w = ground arith

  get_irq-dma : (dma : ℕ) (given : Bool) (w : World p) → (das_dma_get_irq dma given w).1.dma ≡ w.dma
  unfolding das_dma_get_irq handle_index
  get_irq-dma dma given w = ground arith

  Deactivated-Step :
      {A : Type 0} {may : Bool} (dma : ℕ) (w : World p) (r : Outcome A × World p)
      → Deactivated dma w.dma r
      → Step w.dma may r.1.dma
  Deactivated-Step dma w r (inl same) = keep same
  Deactivated-Step dma w r (inr (valid, vars)) = deactivates dma valid vars

  -- Every call of the driver, the waits included, with any arguments, null pointers included, makes
  -- one of the six steps of the stream table, whatever the hardware does.
  pub call-Step : (c : Call) (w : World p) → Step w.dma (is_acquire c) (call c w).dma
  unfolding call das_dma_is_valid
  call-Step (acquire false) w = keep (null_acquire-dma w)
  call-Step (acquire true) w = elim (acquire-Searched w) [
    | inl (i, below, free, result, vars) ↦ claims i refl below free vars
    | inr (result, vars, all) ↦ keep vars
  ]
  call-Step (release dma) w = elim (release-Released dma w) [
    | inl (failed, vars) ↦ keep vars
    | inr (done, valid, vars) ↦ frees dma valid vars
  ]
  call-Step (is_valid dma) w = keep refl
  call-Step (configure dma none) w = keep (null_configure-dma dma w)
  call-Step (configure dma (some config)) w = elim (configure-Configured dma config w) [
    | inl same ↦ keep same
    | inr (valid, vars) ↦ configures dma config valid vars
  ]
  call-Step (set_request dma request) w = keep (set_request-KeepsVars dma request w).0
  call-Step (start dma source destination count) w =
      elim (start-Activated dma source destination count w) [
        | inl same ↦ keep same
        | inr (valid, ready, vars) ↦ activates dma valid ready vars
      ]
  call-Step (get_state dma given) w =
      Deactivated-Step dma w (das_dma_get_state dma given w) (get_state-Deactivated dma given w)
  call-Step (get_remaining dma given) w = keep (get_remaining-dma dma given w)
  call-Step (wait_timeout fuel dma timeout_ms) w =
      Deactivated-Step dma w (das_dma_wait_timeout fuel dma timeout_ms w)
        (wait_timeout-Deactivated fuel dma timeout_ms w)
  call-Step (wait fuel dma) w =
      Deactivated-Step dma w (das_dma_wait fuel dma w) (wait-Deactivated fuel dma w)
  call-Step (abort dma) w = Deactivated-Step dma w (das_dma_abort dma w) (abort-Deactivated dma w)
  call-Step (get_irq dma given) w = keep (get_irq-dma dma given w)
