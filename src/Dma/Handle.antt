-- ===== src/Dma/Handle.antt =====
-- src/device/stm32h755/dma_handle_internal.h: the token of an allocation. The low three bits select
-- the stream, the upper 29 the generation of the allocation.
use device_abstraction_stack.Base.{
  ℕ, ◌+◌, ◌-◌, Bool, ◌&&◌, bit_and, bit_or, leb, ltb, ◌==◌, ◌!=◌, if◌then◌else◌, uint32_max, ◌<<<◌,
  ◌>>>◌,
}

abbrev pub stm32h755_dma_handle_generation_limit : ℕ
stm32h755_dma_handle_generation_limit = uint32_max >>> 3

unfoldable pub stm32h755_dma_handle_index : ℕ → ℕ
stm32h755_dma_handle_index handle = bit_and handle 7

unfoldable pub stm32h755_dma_handle_generation : ℕ → ℕ
stm32h755_dma_handle_generation handle = handle >>> 3

unfoldable pub stm32h755_dma_next_generation : ℕ → ℕ
stm32h755_dma_next_generation previous =
    if leb (stm32h755_dma_handle_generation_limit - 1) previous then 1 else previous + 1

unfoldable pub stm32h755_dma_make_handle : ℕ → ℕ → ℕ
stm32h755_dma_make_handle index generation = bit_or (generation <<< 3) index

unfoldable pub stm32h755_dma_handle_matches : ℕ → ℕ → Bool → Bool
stm32h755_dma_handle_matches handle active_generation claimed =
    let token_generation = stm32h755_dma_handle_generation handle in
    claimed
    && handle != uint32_max
    && token_generation != 0
    && ltb token_generation stm32h755_dma_handle_generation_limit
    && token_generation == active_generation
