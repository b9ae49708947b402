-- ===== src/Spi/Chunks.antt =====
-- The division of a transfer into chunks.
use device_abstraction_stack.Base.{
  ℕ, zero, suc, ◌+◌, ◌-◌, ◌≤◌, ◌<◌, ◌≡◌, inl, inr, refl, arith, ltb, Bool-cases, false,
}
use device_abstraction_stack.Machine.Platform.{Platform}
use device_abstraction_stack.Machine.World.{World}
use device_abstraction_stack.Machine.Monad.{M, and_then}
use device_abstraction_stack.Machine.Success.{Returned, and_then-Returned}
use device_abstraction_stack.Spi.Polled.{each_chunk, chunk_count, spi_max_transfer}

-- The next chunk is not empty, fits the size field of the controller, and ends within the transfer.
pub chunk_count-bounds :
    (remaining : ℕ)
    → 1 ≤ remaining
    → (1 ≤ chunk_count remaining)
      × (chunk_count remaining ≤ spi_max_transfer)
      × (chunk_count remaining ≤ remaining)
unfolding chunk_count
chunk_count-bounds remaining h = (ground arith, ground arith, ground arith)

module _ ⦃p : Platform⦄ where
  -- What a routine for one chunk does to a property of the bytes that are done and the world.
  abbrev pub Advances : (ℕ → World p → Type 0) → ℕ → (ℕ → ℕ → M (Unit {0})) → Type 0
  Advances Done size chunk =
      (offset count : ℕ) (w : World p)
      → 1 ≤ count
      → count ≤ spi_max_transfer
      → offset + count ≤ size
      → Done offset w
      → Returned (Done (offset + count)) (chunk offset count w)

  each_chunk-from :
      (Done : ℕ → World p → Type 0) (size : ℕ) (chunk : ℕ → ℕ → M (Unit {0}))
      → Advances Done size chunk
      → (left offset : ℕ) (w : World p) → offset ≤ size
      → size ≤ offset + left
      → Done offset w
      → Returned (Done size) (each_chunk left chunk size offset w)
  unfolding each_chunk
  each_chunk-from Done size chunk steps zero offset w h k d =
      let over : ltb offset size ≡ false = ground arith in
      let e : offset ≡ size = omega arith in rw over (inl (refl, rw (← e) d))
  each_chunk-from Done size chunk steps (suc left) offset w h k d =
      elim (Bool-cases (ltb offset size)) [
        | inl more ↦ rw more (
            ahead (chunk_count-bounds (size - offset) (ground arith)) (ground arith)
              (λ o v a b e. each_chunk-from Done size chunk steps left o v a b e))
        | inr over ↦ let e : offset ≡ size = ground arith in rw over (inl (refl, rw (← e) d))
      ]
    where
      count : ℕ
      count = chunk_count (size - offset)

      ahead :
          (1 ≤ count) × (count ≤ spi_max_transfer) × (count ≤ size - offset)
          → offset < size
          → ((o : ℕ) (v : World p)
              → o ≤ size
              → size ≤ o + left
              → Done o v
              → Returned (Done size) (each_chunk left chunk size o v))
          → Returned
              (Done size)
              (and_then (chunk offset count w) (λ u. each_chunk left chunk size (offset + count)))
      ahead (low, fits, inside) l again =
          and_then-Returned (Done (offset + count)) (Done size) (chunk offset count w)
            (each_chunk left chunk size (offset + count))
            (steps offset count w low fits (omega arith) d)
            (λ v e. again (offset + count) v (omega arith) (omega arith) e)

  -- The loop over the chunks of a transfer, over any routine for one chunk: the routine is only
  -- ever asked for a chunk of 1 to 65535 bytes within the transfer, each starting where the last
  -- one ended; when the routine always returns, the loop does, and when the loop returns `DAS_OK`,
  -- all `size` bytes are done, whatever that means for the routine.
  pub each_chunk-Returned :
      (Done : ℕ → World p → Type 0) (size : ℕ) (chunk : ℕ → ℕ → M (Unit {0}))
      → Advances Done size chunk
      → (w : World p) → Done 0 w
      → Returned (Done size) (each_chunk size chunk size 0 w)
  each_chunk-Returned Done size chunk steps w d =
      each_chunk-from Done size chunk steps size 0 w (omega arith) (omega arith) d
