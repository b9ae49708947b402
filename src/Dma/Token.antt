-- ===== src/Dma/Token.antt =====
-- The token arithmetic of src/device/stm32h755/dma_handle_internal.h.
use device_abstraction_stack.Base.{
  ℕ, ◌+◌, ◌*◌, ◌%◌, ◌≤◌, ◌<◌, ◌≡◌, ◌≢◌, arith, Bool, ◌&&◌, ◌==◌, uint32_max, u32,
}
use device_abstraction_stack.Base.Bits.{bit_or_sum, bit_and_low}
use device_abstraction_stack.Dma.Handle.{
  stm32h755_dma_handle_index, stm32h755_dma_handle_generation, stm32h755_dma_next_generation,
  stm32h755_dma_make_handle, stm32h755_dma_handle_matches, stm32h755_dma_handle_generation_limit,
}

-- A generation that a token may carry.
abbrev pub Issued : ℕ → Type 0
Issued generation = (1 ≤ generation) × (generation < stm32h755_dma_handle_generation_limit)

pub next_generation-Issued : (g : ℕ) → Issued (stm32h755_dma_next_generation g)
unfolding stm32h755_dma_next_generation
next_generation-Issued g = ground arith

pub next_generation_ne : (g : ℕ) → stm32h755_dma_next_generation g ≢ g
unfolding stm32h755_dma_next_generation
next_generation_ne g = ground arith

pub make_handle_sum :
    (index generation : ℕ)
    → index < 8
    → generation < stm32h755_dma_handle_generation_limit
    → stm32h755_dma_make_handle index generation ≡ generation * 8 + index
unfolding stm32h755_dma_make_handle
make_handle_sum index generation h k =
    let exact : u32 (generation * 8) ≡ generation * 8 = omega arith in
    rw exact (bit_or_sum 3 generation index h)

pub handle_index_mod : (handle : ℕ) → stm32h755_dma_handle_index handle ≡ handle % 8
unfolding stm32h755_dma_handle_index
handle_index_mod handle = bit_and_low 3 handle

-- For a stream below 8 and a generation that may be issued, the token gives back both, is not
-- `DAS_DMA_INVALID`, and matches exactly a claimed stream whose generation is the token's.
pub make_handle_roundtrip :
    (index generation active : ℕ) (claimed : Bool)
    → index < 8
    → Issued generation
    → let handle = stm32h755_dma_make_handle index generation in
      (stm32h755_dma_handle_index handle ≡ index)
      × (stm32h755_dma_handle_generation handle ≡ generation)
      × (handle ≢ uint32_max)
      × (stm32h755_dma_handle_matches handle active claimed ≡ (claimed && generation == active))
unfolding stm32h755_dma_handle_generation stm32h755_dma_handle_matches
make_handle_roundtrip index generation active claimed h k =
    let sum = make_handle_sum index generation h k.1 in
    rw sum (
      omega (arith, handle_index_mod (generation * 8 + index)),
      omega arith,
      omega arith,
      ground arith,
    )
