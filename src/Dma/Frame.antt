-- ===== src/Dma/Frame.antt =====
-- What the helpers on one stream leave alone: they change the hardware and no variable.
use device_abstraction_stack.Base.{ℕ, zero, suc, ◌≡◌, arith}
use device_abstraction_stack.Machine.Reg.{Reg}
use device_abstraction_stack.Machine.Platform.{Platform}
use device_abstraction_stack.Machine.World.{World}
use device_abstraction_stack.Machine.Monad.{Outcome, ok}
use device_abstraction_stack.Dma.Handle.{stm32h755_dma_handle_index}
use device_abstraction_stack.Dma.Stream.{
  stop_polls, stop_stream, clear_stream_flags, enable_dma_clock, require_disabled, stream_flags,
  stm32h755_dma_set_request, handle_index, write_addresses,
}

module _ ⦃p : Platform⦄ where
  abbrev pub KeepsVars : {A : Type 0} → World p → Outcome A × World p → Type 0
  KeepsVars w r = (r.1.dma ≡ w.dma) × (r.1.time ≡ w.time)

  stop_polls-KeepsVars : (n index : ℕ) (w : World p) → KeepsVars w (stop_polls n index w)
  unfolding stop_polls
  stop_polls-KeepsVars zero index w = ground arith
  stop_polls-KeepsVars (suc n) index w =
      ground
        (arith, stop_polls-KeepsVars n index (record w { hw = (p.read (Reg.dma_cr index) w.hw).1 }))

  pub stop_stream-KeepsVars : (index : ℕ) (w : World p) → KeepsVars w (stop_stream index w)
  unfolding stop_stream
  stop_stream-KeepsVars index w = grind (arith, stop_polls-KeepsVars)

  pub clear_stream_flags-KeepsVars :
      (index : ℕ) (w : World p) → KeepsVars w (clear_stream_flags index w)
  unfolding clear_stream_flags
  clear_stream_flags-KeepsVars index w = ground arith

  pub clear_stream_flags-ok : (index : ℕ) (w : World p) → (clear_stream_flags index w).0 ≡ ok tt
  unfolding clear_stream_flags
  clear_stream_flags-ok index w = ground arith

  pub enable_dma_clock-KeepsVars : (w : World p) → KeepsVars w (enable_dma_clock w)
  unfolding enable_dma_clock
  enable_dma_clock-KeepsVars w = ground arith

  pub require_disabled-KeepsVars :
      (index : ℕ) (w : World p) → KeepsVars w (require_disabled index w)
  unfolding require_disabled
  require_disabled-KeepsVars index w = ground arith

  pub stream_flags-KeepsVars : (index : ℕ) (w : World p) → KeepsVars w (stream_flags index w)
  unfolding stream_flags
  stream_flags-KeepsVars index w = ground arith

  pub set_request-KeepsVars :
      (dma request : ℕ) (w : World p) → KeepsVars w (stm32h755_dma_set_request dma request w)
  unfolding stm32h755_dma_set_request handle_index
  set_request-KeepsVars dma request w =
      ground (arith, require_disabled-KeepsVars (stm32h755_dma_handle_index dma) w)

  pub write_addresses-KeepsVars :
      (direction index source destination : ℕ) (w : World p)
      → KeepsVars w (write_addresses direction index source destination w)
  unfolding write_addresses
  write_addresses-KeepsVars direction index source destination w = ground arith
