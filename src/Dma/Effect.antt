-- ===== src/Dma/Effect.antt =====
-- What each call of the DMA driver does to its result and its variables.
use device_abstraction_stack.Base.{
  ℕ, zero, suc, ◌+◌, ◌≤◌, ◌<◌, ◌≡◌, ◌≢◌, refl, arith, Bool, true, false, Bool-cases, Option-cases,
  ◌⊎◌, inl, inr, update, ◌==◌, u32, some,
}
use device_abstraction_stack.Api.Dma.{DasDmaConfig}
use device_abstraction_stack.Machine.Reg.{Reg}
use device_abstraction_stack.Machine.Platform.{Platform}
use device_abstraction_stack.Machine.World.{World, DmaVars}
use device_abstraction_stack.Machine.Monad.{Outcome, ok, err, not_ready}
use device_abstraction_stack.Dma.Handle.{
  stm32h755_dma_handle_index, stm32h755_dma_make_handle, stm32h755_dma_next_generation,
}
use device_abstraction_stack.Dma.Stream.{
  handle_valid, handle_index, stop_stream, clear_stream_flags, require_disabled, set_active,
  configured_cr,
}
use device_abstraction_stack.Dma.Driver.{
  claim, unclaim, acquire_from, das_dma_release, das_dma_get_state, das_dma_abort, das_dma_start,
  das_dma_configure, configure_stream, configure_checked, dma_request_mem2mem,
}
use device_abstraction_stack.Dma.Frame.{
  stop_stream-KeepsVars, clear_stream_flags-KeepsVars, clear_stream_flags-ok,
  require_disabled-KeepsVars, stream_flags-KeepsVars, set_request-KeepsVars,
  write_addresses-KeepsVars,
}

abbrev pub configure_vars : ℕ → DasDmaConfig → DmaVars → DmaVars
configure_vars index config d = record d {
  g_dma_active = update d.g_dma_active index false;
  g_dma_config = update d.g_dma_config index config;
  g_dma_configured = update d.g_dma_configured index true;
}

abbrev pub activate : ℕ → Bool → DmaVars → DmaVars
activate index active d = record d { g_dma_active = update d.g_dma_active index active }

pub claim_generation :
    (index : ℕ) (d : DmaVars)
    → (claim index d).g_dma_generation index
      ≡ stm32h755_dma_next_generation (d.g_dma_generation index)
unfolding claim
claim_generation index d = ground arith

module _ ⦃p : Platform⦄ where
  abbrev claimed_world : ℕ → World p → ℕ → World p
  claimed_world index w primask = record w {
    dma = claim index w.dma;
    hw = p.set_primask primask w.hw;
  }

  -- What the search for a free stream from `index` on has come to: the first free one is claimed
  -- and its token returned, or all are taken and nothing changes.
  abbrev pub Acquired : ℕ → ℕ → World p → Outcome ℕ × World p → Type 0
  Acquired left index w r =
      ((i : ℕ) × (index ≤ i)
        × (i < index + left)
        × (w.dma.g_dma_claimed i ≡ false)
        × (r.0
            ≡ ok (
                stm32h755_dma_make_handle i
                  (stm32h755_dma_next_generation (w.dma.g_dma_generation i))))
        × (r.1.dma ≡ claim i w.dma))
      ⊎ ((r.0 ≡ err not_ready)
          × (r.1.dma ≡ w.dma)
          × ((i : ℕ) → index ≤ i → i < index + left → w.dma.g_dma_claimed i ≡ true))

  pub acquire_from-Acquired :
      (left index primask : ℕ) (w : World p)
      → Acquired left index w (acquire_from left index primask w)
  unfolding acquire_from
  acquire_from-Acquired zero index primask w = inr (refl, refl, λ i h k. absurd (omega arith))
  acquire_from-Acquired (suc left) index primask w = elim (Bool-cases (w.dma.g_dma_claimed index)) [
    | inl taken ↦ rw taken (skip taken (acquire_from-Acquired left (index + 1) primask w))
    | inr free ↦ rw free (
        inl (
          index,
          omega arith,
          omega arith,
          free,
          ground (
            arith,
            clear_stream_flags-ok index (claimed_world index w primask),
            claim_generation index w.dma,
          ),
          ground (arith, clear_stream_flags-KeepsVars index (claimed_world index w primask)),
        ))
  ]
    where
      covered :
          w.dma.g_dma_claimed index ≡ true
          → ((i : ℕ) → index + 1 ≤ i → i < index + 1 + left → w.dma.g_dma_claimed i ≡ true)
          → (i : ℕ) → index ≤ i
          → i < index + suc left
          → w.dma.g_dma_claimed i ≡ true
      covered taken all i h k = elim (Bool-cases (index == i)) [
        | inl same ↦ let e : index ≡ i = ground arith in rw (← e) taken
        | inr other ↦ all i (ground arith) (omega arith)
      ]

      skip :
          w.dma.g_dma_claimed index ≡ true
          → Acquired left (index + 1) w (acquire_from left (index + 1) primask w)
          → Acquired (suc left) index w (acquire_from left (index + 1) primask w)
      skip taken (inl (i, a, b, free, token, vars)) =
          inl (i, omega arith, omega arith, free, token, vars)
      skip taken (inr (e, same, all)) = inr (e, same, covered taken all)

  -- The world after the stream of `dma` has been stopped.
  abbrev stopped : ℕ → World p → World p
  stopped dma w = (stop_stream (stm32h755_dma_handle_index dma) w).1

  -- A release that fails changes no variable; one that succeeds frees the stream of a valid token.
  abbrev pub Released : ℕ → World p → Outcome (Unit {0}) × World p → Type 0
  Released dma w r =
      ((r.0 ≢ ok tt) × (r.1.dma ≡ w.dma))
      ⊎ ((r.0 ≡ ok tt)
          × (handle_valid w.dma dma ≡ true)
          × (r.1.dma ≡ unclaim (stm32h755_dma_handle_index dma) w.dma))

  pub release-Released : (dma : ℕ) (w : World p) → Released dma w (das_dma_release dma w)
  unfolding das_dma_release handle_index
  release-Released dma w = ground (
    arith,
    stop_stream-KeepsVars (stm32h755_dma_handle_index dma) w,
    clear_stream_flags-KeepsVars (stm32h755_dma_handle_index dma) (stopped dma w),
    clear_stream_flags-ok (stm32h755_dma_handle_index dma) (stopped dma w),
  )

  abbrev handle : ℕ → ℕ
  handle dma = stm32h755_dma_handle_index dma

  pub get_state-Deactivated :
      (dma : ℕ) (state : Bool) (w : World p)
      → ((das_dma_get_state dma state w).1.dma ≡ w.dma)
        ⊎ ((handle_valid w.dma dma ≡ true)
            × ((das_dma_get_state dma state w).1.dma ≡ activate (handle dma) false w.dma))
  unfolding das_dma_get_state handle_index set_active
  get_state-Deactivated dma state w = ground (arith, stream_flags-KeepsVars (handle dma) w)

  pub abort-Deactivated :
      (dma : ℕ) (w : World p)
      → ((das_dma_abort dma w).1.dma ≡ w.dma)
        ⊎ ((handle_valid w.dma dma ≡ true)
            × ((das_dma_abort dma w).1.dma ≡ activate (handle dma) false w.dma))
  unfolding das_dma_abort handle_index set_active
  abort-Deactivated dma w = ground (
    arith,
    stop_stream-KeepsVars (handle dma) w,
    clear_stream_flags-KeepsVars (handle dma) (stopped dma w),
  )

  abbrev required : ℕ → World p → World p
  required dma w = (require_disabled (handle dma) w).1

  abbrev cleared : ℕ → World p → World p
  cleared dma w = (clear_stream_flags (handle dma) (required dma w)).1

  pub start-Activated :
      (dma source destination count : ℕ) (w : World p)
      → ((das_dma_start dma source destination count w).1.dma ≡ w.dma)
        ⊎ ((handle_valid w.dma dma ≡ true)
            × (w.dma.g_dma_configured (handle dma) ≡ true)
            × ((das_dma_start dma source destination count w).1.dma
                ≡ activate (handle dma) true w.dma))
  unfolding das_dma_start handle_index set_active
  start-Activated dma source destination count w = ground (
    arith,
    require_disabled-KeepsVars (handle dma) w,
    clear_stream_flags-KeepsVars (handle dma) (required dma w),
    write_addresses-KeepsVars (w.dma.g_dma_config (handle dma)).direction (handle dma) source
        destination
        (record (cleared dma w) {
          hw = p.write (Reg.dma_ndtr (handle dma)) (u32 count) (cleared dma w).hw;
        }),
  )

  configure_stream-vars :
      (index : ℕ) (config : DasDmaConfig) (cr : ℕ) (w : World p)
      → ((configure_stream index config cr w).0 ≡ ok tt)
        × ((configure_stream index config cr w).1.dma ≡ configure_vars index config w.dma)
  unfolding configure_stream clear_stream_flags
  configure_stream-vars index config cr w = ground arith

  configured_world : ℕ → DasDmaConfig → ℕ → World p → World p
  configured_world dma config cr w = (configure_stream (handle dma) config cr (required dma w)).1

  configure_checked-Configured :
      (dma : ℕ) (config : DasDmaConfig) (w : World p)
      → ((configure_checked dma (handle dma) config w).1.dma ≡ w.dma)
        ⊎ ((configure_checked dma (handle dma) config w).1.dma
            ≡ configure_vars (handle dma) config w.dma)
  unfolding configure_checked configured_world
  configure_checked-Configured dma config w = elim (Option-cases (configured_cr config)) [
    | inl invalid ↦ ground (arith, require_disabled-KeepsVars (handle dma) w)
    | inr (cr, e) ↦ ground (
      arith,
      require_disabled-KeepsVars (handle dma) w,
      configure_stream-vars (handle dma) config cr (required dma w),
      set_request-KeepsVars dma dma_request_mem2mem (configured_world dma config cr w),
    )
  ]

  pub configure-Configured :
      (dma : ℕ) (config : DasDmaConfig) (w : World p)
      → ((das_dma_configure dma (some config) w).1.dma ≡ w.dma)
        ⊎ ((handle_valid w.dma dma ≡ true)
            × ((das_dma_configure dma (some config) w).1.dma
                ≡ configure_vars (handle dma) config w.dma))
  unfolding das_dma_configure handle_index
  configure-Configured dma config w = ground (arith, configure_checked-Configured dma config w)
