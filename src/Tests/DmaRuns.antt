-- ===== src/Tests/DmaRuns.antt =====
-- The DMA driver on the quiet board.
use device_abstraction_stack.Base.{
  ℕ, ◌≡◌, ◌≢◌, ◌<◌, ◌⊎◌, refl, arith, true, false, not, ◌&&◌, ◌||◌, some, List, [], ◌∷◌, ◌==◌,
  if◌then◌else◌, uint32_max,
}
use device_abstraction_stack.Machine.World.{World}
use device_abstraction_stack.Machine.Monad.{ok, err, not_ready}
use device_abstraction_stack.Dma.Handle.{
  stm32h755_dma_handle_index, stm32h755_dma_handle_generation, stm32h755_dma_make_handle,
  stm32h755_dma_next_generation, stm32h755_dma_handle_matches,
}
use device_abstraction_stack.Dma.Stream.{
  handle_valid, handle_index, stop_stream, stop_polls, clear_stream_flags, flag_shift,
  enable_dma_clock,
}
use device_abstraction_stack.Dma.Driver.{das_dma_acquire, das_dma_release, acquire_from, claim}
use device_abstraction_stack.Dma.Token.{make_handle_roundtrip}
use device_abstraction_stack.Dma.Step.{
  Call, acquire, release, configure, start, get_state, wait_timeout, abort, call, call-Step, Step,
}
use device_abstraction_stack.Dma.Invariant.{IsConsistent, calls, calls-IsConsistent}
use device_abstraction_stack.Dma.Live.{acquire_total, acquire_adds, release_removes}
use device_abstraction_stack.Dma.Stale.{released_stays_invalid, acquires}
use device_abstraction_stack.Tests.Board.{board, fresh, no_streams, no_config}

-- The board with stream 0 claimed under generation 1, whose token is 8.
abbrev taken : World board
taken = record fresh {
  dma = record no_streams {
    g_dma_claimed = λ i. i == 0;
    g_dma_generation = λ i. if i == 0 then 1 else 0;
  };
}

released : (das_dma_release ⦃p = board⦄ 8 taken).0 ≡ ok tt
unfolding das_dma_release handle_index handle_valid stm32h755_dma_handle_index
    stm32h755_dma_handle_matches stm32h755_dma_handle_generation stop_stream stop_polls
    clear_stream_flags flag_shift
released = refl

acquired : (das_dma_acquire ⦃p = board⦄ true fresh).0 ≡ ok 8
unfolding das_dma_acquire enable_dma_clock acquire_from claim stm32h755_dma_make_handle
    stm32h755_dma_next_generation clear_stream_flags flag_shift
acquired = refl

-- A second user claims the stream of the released token 8, and transfers.
abbrev reuse : List Call
reuse =
    acquire true
    ∷ configure 16 (some no_config)
    ∷ start 16 4 8 1
    ∷ get_state 8 true
    ∷ wait_timeout 3 16 2
    ∷ abort 8
    ∷ []

few : acquires reuse < 0x1fff_fffe
unfolding acquires
few = omega arith

released_stays_invalid_example :
    handle_valid (calls ⦃p = board⦄ reuse (call ⦃p = board⦄ (release 8) taken)).dma 8 ≡ false
released_stays_invalid_example = released_stays_invalid ⦃p = board⦄ 8 reuse taken released few

acquire_adds_example :
    (handle_valid no_streams 8 ≡ false)
    × (8 ≢ uint32_max)
    × (handle_valid (das_dma_acquire ⦃p = board⦄ true fresh).1.dma 16
        ≡ (16 == 8 || handle_valid no_streams 16))
acquire_adds_example = acquire_adds ⦃p = board⦄ fresh 8 16 acquired

release_removes_example :
    (handle_valid taken.dma 8 ≡ true)
    × (handle_valid (das_dma_release ⦃p = board⦄ 8 taken).1.dma 8
        ≡ (not (8 == 8) && handle_valid taken.dma 8))
release_removes_example = release_removes ⦃p = board⦄ taken 8 8 released

make_handle_roundtrip_example :
    (stm32h755_dma_handle_index (stm32h755_dma_make_handle 3 5) ≡ 3)
    × (stm32h755_dma_handle_generation (stm32h755_dma_make_handle 3 5) ≡ 5)
    × (stm32h755_dma_make_handle 3 5 ≢ uint32_max)
    × (stm32h755_dma_handle_matches (stm32h755_dma_make_handle 3 5) 4 true ≡ (true && 5 == 4))
make_handle_roundtrip_example =
    make_handle_roundtrip 3 5 4 true (omega arith) (omega arith, omega arith)

consistent : IsConsistent no_streams
consistent = record {
  exists = λ i h. ground arith;
  issued = λ i h. ground arith;
  owned = λ i h. h;
  ready = λ i h. h;
}

calls-IsConsistent_example : IsConsistent (calls ⦃p = board⦄ reuse fresh).dma
calls-IsConsistent_example = calls-IsConsistent ⦃p = board⦄ reuse fresh consistent

call-Step_example : Step taken.dma false (call ⦃p = board⦄ (start 8 4 8 1) taken).dma
call-Step_example = call-Step ⦃p = board⦄ (start 8 4 8 1) taken

acquire_total_example :
    ((h : ℕ) × (i : ℕ) × ((das_dma_acquire ⦃p = board⦄ true taken).0 ≡ ok h)
      × (i < 8)
      × (taken.dma.g_dma_claimed i ≡ false)
      × (stm32h755_dma_handle_index h ≡ i)
      × (handle_valid (das_dma_acquire ⦃p = board⦄ true taken).1.dma h ≡ true)
      × ((das_dma_acquire ⦃p = board⦄ true taken).1.dma.g_dma_claimed i ≡ true))
    ⊎ (((das_dma_acquire ⦃p = board⦄ true taken).0 ≡ err not_ready)
        × ((das_dma_acquire ⦃p = board⦄ true taken).1.dma ≡ taken.dma)
        × ((i : ℕ) → i < 8 → taken.dma.g_dma_claimed i ≡ true))
acquire_total_example = acquire_total ⦃p = board⦄ taken
