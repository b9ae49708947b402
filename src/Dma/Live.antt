-- ===== src/Dma/Live.antt =====
-- The allocator as its clients see it: the set of valid tokens.
use device_abstraction_stack.Base.{
  ℕ, ◌+◌, ◌*◌, ◌<◌, ◌≡◌, ◌≢◌, refl, ◌∙◌, arith, true, false, not, inl, inr, ◌⊎◌, ◌==◌, uint32_max,
  ◌&&◌, ◌||◌,
}
use device_abstraction_stack.Machine.Platform.{Platform}
use device_abstraction_stack.Machine.World.{World, DmaVars}
use device_abstraction_stack.Machine.Monad.{Outcome, ok, err, not_ready}
use device_abstraction_stack.Dma.Handle.{
  stm32h755_dma_handle_index, stm32h755_dma_make_handle, stm32h755_dma_next_generation,
  stm32h755_dma_handle_matches, stm32h755_dma_handle_generation,
}
use device_abstraction_stack.Dma.Token.{
  Issued, next_generation-Issued, make_handle_sum, handle_index_mod,
}
use device_abstraction_stack.Dma.Stream.{handle_valid, dma_stream_count, enable_dma_clock}
use device_abstraction_stack.Dma.Driver.{
  claim, unclaim, acquire_from, das_dma_acquire, das_dma_release,
}
use device_abstraction_stack.Dma.Effect.{Acquired, acquire_from-Acquired, release-Released}

-- A token is valid exactly when it is the one made for its stream and the current generation, the
-- stream is claimed, and the generation is one that is issued.
pub handle_valid_iff :
    (d : DmaVars) (dma : ℕ)
    → handle_valid d dma ≡ true
    → let i = stm32h755_dma_handle_index dma in
      (d.g_dma_claimed i ≡ true)
      × (Issued (d.g_dma_generation i))
      × (dma ≡ d.g_dma_generation i * 8 + i)
      × (i < 8)
unfolding handle_valid stm32h755_dma_handle_matches stm32h755_dma_handle_generation
handle_valid_iff d dma h = ground (arith, handle_index_mod dma)

-- The token that a claim of stream `i` issues.
abbrev pub token : DmaVars → ℕ → ℕ
token d i = stm32h755_dma_make_handle i (stm32h755_dma_next_generation (d.g_dma_generation i))

module _ (d : DmaVars) (i : ℕ) (below : i < dma_stream_count)
    (free : d.g_dma_claimed i ≡ false) where
  token_sum : token d i ≡ stm32h755_dma_next_generation (d.g_dma_generation i) * 8 + i
  token_sum = make_handle_sum i _ below (next_generation-Issued (d.g_dma_generation i)).1

  index-token : stm32h755_dma_handle_index (token d i) ≡ i
  index-token = omega (arith, token_sum, handle_index_mod (token d i))

  handle_valid-claim :
      (dma : ℕ) → handle_valid (claim i d) dma ≡ (dma == token d i || handle_valid d dma)
  unfolding claim handle_valid stm32h755_dma_handle_matches stm32h755_dma_handle_generation
  handle_valid-claim dma =
      ground (
        arith,
        handle_index_mod dma,
        token_sum,
        next_generation-Issued (d.g_dma_generation i),
        free,
      )

  token_fresh : (handle_valid d (token d i) ≡ false) × (token d i ≢ uint32_max)
  unfolding handle_valid stm32h755_dma_handle_matches stm32h755_dma_handle_generation
  token_fresh = ground (
    arith,
    handle_index_mod (token d i),
    token_sum,
    next_generation-Issued (d.g_dma_generation i),
    free,
  )

claimed-claim : (i : ℕ) (d : DmaVars) → (claim i d).g_dma_claimed i ≡ true
unfolding claim
claimed-claim i d = ground arith

handle_valid-unclaim :
    (d : DmaVars) (freed dma : ℕ)
    → handle_valid d freed ≡ true
    → handle_valid (unclaim (stm32h755_dma_handle_index freed) d) dma
      ≡ (not (dma == freed) && handle_valid d dma)
unfolding unclaim handle_valid stm32h755_dma_handle_matches stm32h755_dma_handle_generation
handle_valid-unclaim d freed dma h = ground (arith, handle_index_mod dma, handle_index_mod freed)

module _ ⦃p : Platform⦄ where
  -- What a search of all eight streams returns.
  abbrev pub Searched : World p → Outcome ℕ × World p → Type 0
  Searched w r =
      ((i : ℕ) × (i < dma_stream_count)
        × (w.dma.g_dma_claimed i ≡ false)
        × (r.0 ≡ ok (token w.dma i))
        × (r.1.dma ≡ claim i w.dma))
      ⊎ ((r.0 ≡ err not_ready)
          × (r.1.dma ≡ w.dma)
          × ((i : ℕ) → i < dma_stream_count → w.dma.g_dma_claimed i ≡ true))

  searched :
      (w w' : World p) (r : Outcome ℕ × World p)
      → w'.dma ≡ w.dma
      → Acquired dma_stream_count 0 w' r
      → Searched w r
  searched w w' r e (inl (i, lo, hi, free, result, vars)) =
      inl (i, hi, ground arith, ground arith, ground arith)
  searched w w' r e (inr (result, vars, all)) =
      inr (result, vars ∙ e, λ i h. ground (arith, all i (omega arith) h))

  pub acquire-Searched : (w : World p) → Searched w (das_dma_acquire true w)
  unfolding das_dma_acquire enable_dma_clock
  acquire-Searched w =
      let s = (enable_dma_clock w).1.hw in
      let locked : World p = record w { hw = p.disable_irq (p.get_primask s).1 } in
      let primask = (p.get_primask s).0 in
      searched w locked (acquire_from dma_stream_count 0 primask locked) refl
        (acquire_from-Acquired dma_stream_count 0 primask locked)

  -- `das_dma_acquire` always returns: with the token of a stream that was free, which it is then valid
  -- for, or, exactly when all eight streams are claimed, with `DAS_ERROR_NOT_READY` and no variable
  -- changed.
  pub acquire_total :
      (w : World p)
      → ((h : ℕ) × (i : ℕ) × ((das_dma_acquire true w).0 ≡ ok h)
          × (i < dma_stream_count)
          × (w.dma.g_dma_claimed i ≡ false)
          × (stm32h755_dma_handle_index h ≡ i)
          × (handle_valid (das_dma_acquire true w).1.dma h ≡ true)
          × ((das_dma_acquire true w).1.dma.g_dma_claimed i ≡ true))
        ⊎ (((das_dma_acquire true w).0 ≡ err not_ready)
            × ((das_dma_acquire true w).1.dma ≡ w.dma)
            × ((i : ℕ) → i < dma_stream_count → w.dma.g_dma_claimed i ≡ true))
  acquire_total w = elim (acquire-Searched w) [
    | inl (i, below, free, result, vars) ↦ inl (
      token w.dma i,
      i,
      result,
      below,
      free,
      index-token w.dma i below free,
      rw (vars, handle_valid-claim w.dma i below free (token w.dma i)) (ground arith),
      rw vars (claimed-claim i w.dma),
    )
    | inr failed ↦ inr failed
  ]

  -- A successful `das_dma_acquire` adds exactly its token to the set of valid tokens: the token was
  -- not valid before, is never `DAS_DMA_INVALID`, and the validity of every other one is unchanged.
  pub acquire_adds :
      (w : World p) (h other : ℕ)
      → (das_dma_acquire true w).0 ≡ ok h
      → (handle_valid w.dma h ≡ false)
        × (h ≢ uint32_max)
        × (handle_valid (das_dma_acquire true w).1.dma other
            ≡ (other == h || handle_valid w.dma other))
  acquire_adds w h other e = elim (acquire-Searched w) [
    | inl (i, below, free, result, vars) ↦
        let same : h ≡ token w.dma i = cc in
        rw (same, vars)
          (
            (token_fresh w.dma i below free).0,
            (token_fresh w.dma i below free).1,
            handle_valid-claim w.dma i below free other,
          )
    | inr (result, vars, all) ↦ absurd (clash result)
  ]
    where
      clash : (das_dma_acquire true w).0 ≡ err not_ready → ⊥
      clash r = cc

  -- A successful `das_dma_release` was given a valid token, and takes exactly it out of the set of
  -- valid tokens.
  pub release_removes :
      (w : World p) (h other : ℕ)
      → (das_dma_release h w).0 ≡ ok tt
      → (handle_valid w.dma h ≡ true)
        × (handle_valid (das_dma_release h w).1.dma other
            ≡ (not (other == h) && handle_valid w.dma other))
  release_removes w h other e = elim (release-Released h w) [
    | inl (failed, vars) ↦ absurd (failed e)
    | inr (done, valid, vars) ↦ (valid, rw vars (handle_valid-unclaim w.dma h other valid))
  ]
