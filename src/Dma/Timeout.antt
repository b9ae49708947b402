-- ===== src/Dma/Timeout.antt =====
-- How a wait for a transfer with a timeout ends, under a source that advances.
use device_abstraction_stack.Base.{
  ℕ, zero, suc, ◌+◌, ◌-◌, ◌*◌, ◌≤◌, ◌<◌, ◌≡◌, ◌≢◌, ◌⊎◌, inl, inr, arith, refl, leb, ltb, true,
  false, u32, Bool-cases, bit_and, ◌>>>◌, has_bits, ◌!=◌, if◌then◌else◌,
}
use device_abstraction_stack.Base.Rounding.{mul_mono}
use device_abstraction_stack.Api.Time.{das_time_max_interval_ms}
use device_abstraction_stack.Api.Dma.{DasDmaState, das_dma_wait_forever}
use device_abstraction_stack.Machine.Reg.{Reg}
use device_abstraction_stack.Machine.Platform.{Platform}
use device_abstraction_stack.Machine.World.{World, DmaVars}
use device_abstraction_stack.Machine.Monad.{
  Error, io, timeout, invalid_argument, not_ready, ok, err, spinning, Outcome, and_then, discard,
  fail,
}
use device_abstraction_stack.Machine.Success.{Returned}
use device_abstraction_stack.Time.{das_time_is_ready}
use device_abstraction_stack.Time.Clock.{Ticking, Installed, das_time_now_ms_lem}
use device_abstraction_stack.Time.Waiting.{
  Apart, Waiting, polls_left, asked, elapsed-Waiting, asked-Waiting,
}
use device_abstraction_stack.Dma.Handle.{stm32h755_dma_handle_index}
use device_abstraction_stack.Dma.Stream.{
  handle_valid, handle_index, stream_flags, set_active, flag_shift, stop_polls, stop_stream,
  dma_disable_spins, dma_all_flags, dma_terminal_error_flags, dma_complete_flag,
}
use device_abstraction_stack.Dma.Driver.{
  das_dma_get_state, das_dma_abort, das_dma_is_valid, wait_loop, das_dma_wait_timeout,
}
use device_abstraction_stack.Dma.Effect.{activate}
use device_abstraction_stack.Dma.Frame.{clear_stream_flags-ok}

-- The register with the flags of a token's stream.
abbrev flags_reg : ℕ → Reg
flags_reg dma = if ltb (stm32h755_dma_handle_index dma) 4 then Reg.dma_lisr else Reg.dma_hisr

module _ ⦃p : Platform⦄ where
  -- The one access of `das_dma_get_state` to the hardware is a read of the flags.
  abbrev Polled : ℕ → World p → Outcome DasDmaState × World p → Type 0
  Polled dma w r =
      (r ≡ (err invalid_argument, w))
      ⊎ ((state : DasDmaState) × (d : DmaVars) × (r
            ≡ (ok state, record w { hw = (p.read (flags_reg dma) w.hw).1; dma = d })))

  get_state-Polled : (dma : ℕ) (w : World p) → Polled dma w (das_dma_get_state dma true w)
  unfolding das_dma_get_state handle_index stream_flags set_active
  get_state-Polled dma w =
      let i = stm32h755_dma_handle_index dma in
      let flags = bit_and ((p.read (flags_reg dma) w.hw).0 >>> flag_shift i) dma_all_flags in
      elim (Bool-cases (handle_valid w.dma dma)) [
        | inl valid ↦ rw valid (elim (Bool-cases (has_bits flags dma_terminal_error_flags)) [
          | inl failed ↦ rw failed (inr (DasDmaState.error, activate i false w.dma, refl))
          | inr going ↦ rw going (elim (Bool-cases (has_bits flags dma_complete_flag)) [
            | inl done ↦ rw done (inr (DasDmaState.complete, activate i false w.dma, refl))
            | inr unfinished ↦ rw unfinished (elim (Bool-cases (w.dma.g_dma_active i)) [
              | inl active ↦ rw active (inr (DasDmaState.busy, w.dma, refl))
              | inr inactive ↦ rw inactive (inr (DasDmaState.idle, w.dma, refl))
            ])
          ])
        ])
        | inr stale ↦ rw stale (inl refl)
      ]

  -- A call whose result is not looked at, before an error is returned.
  discarded :
      (r : Outcome (Unit {0}) × World p) (e : Error)
      → (r.0 ≡ ok tt) ⊎ ((x : Error) × (r.0 ≡ err x))
      → (and_then (discard r) (λ u. fail {A = Unit {0}} e)).0 ≡ err e
  discarded (ok a, w) e h = refl
  discarded (err x, w) e h = refl
  discarded (spinning, w) e (inl h) = absurd (ground arith)
  discarded (spinning, w) e (inr (x, h)) = absurd (ground arith)

  stop_polls-cases :
      (left index : ℕ) (w : World p)
      → ((stop_polls left index w).0 ≡ ok tt) ⊎ ((stop_polls left index w).0 ≡ err timeout)
  unfolding stop_polls
  stop_polls-cases zero index w = inr refl
  stop_polls-cases (suc left) index w =
      elim (Bool-cases (has_bits (p.read (Reg.dma_cr index) w.hw).0 p.cmsis.dma.en)) [
        | inl enabled ↦
            rw enabled
              (stop_polls-cases left index (record w { hw = (p.read (Reg.dma_cr index) w.hw).1 }))
        | inr stopped ↦ rw stopped (inl refl)
      ]

  stop_stream-cases :
      (index : ℕ) (w : World p)
      → ((stop_stream index w).0 ≡ ok tt) ⊎ ((stop_stream index w).0 ≡ err timeout)
  unfolding stop_stream
  stop_stream-cases index w = stop_polls-cases dma_disable_spins index _

  -- An abort returns, since its polls of the stream are bounded.
  abort-cases :
      (dma : ℕ) (w : World p)
      → ((das_dma_abort dma w).0 ≡ ok tt) ⊎ ((x : Error) × ((das_dma_abort dma w).0 ≡ err x))
  unfolding das_dma_abort handle_index set_active
  abort-cases dma w = elim (Bool-cases (handle_valid w.dma dma)) [
    | inr stale ↦ inr (invalid_argument, ground arith)
    | inl valid ↦ elim (stop_stream-cases (stm32h755_dma_handle_index dma) w) [
      | inl done ↦ inl (
          ground (
            arith,
            clear_stream_flags-ok (stm32h755_dma_handle_index dma)
                (stop_stream (stm32h755_dma_handle_index dma) w).1,
          ))
      | inr late ↦ inr (timeout, ground arith)
    ]
  ]

module _ ⦃p : Platform⦄ (source context : ℕ) (t : Ticking p source context)
    (apart : Apart p source context t) where
  -- The time source is still installed.
  abbrev pub Still : World p → Type 0
  Still w = Installed source context w

  -- The world in which a wait goes on after a poll of the state.
  abbrev polled : ℕ → DmaVars → World p → World p
  polled dma d w = record w { hw = (p.read (flags_reg dma) w.hw).1; dma = d }

  polled-Waiting :
      (dma start limit : ℕ) (d : DmaVars) (w : World p)
      → Waiting source context t start limit w
      → Waiting source context t start limit (polled dma d w)
  polled-Waiting dma start limit d w v =
      let (same, calm) = apart.reads (flags_reg dma) w.hw in
      record {
        installed = record {
          source_set = v.installed.source_set;
          context_set = v.installed.context_set;
        };
        begun = omega (arith, v.begun);
        within = omega (arith, v.within);
      }

  polls_left-polled :
      (dma start limit : ℕ) (d : DmaVars) (w : World p)
      → polls_left source context t start limit (polled dma d w)
        ≡ polls_left source context t start limit w
  polls_left-polled dma start limit d w =
      let (same, calm) = apart.reads (flags_reg dma) w.hw in rw (same, calm) refl

  wait_loop-Returned :
      (fuel dma start limit : ℕ) (w : World p)
      → limit ≤ das_time_max_interval_ms
      → Waiting source context t start limit w
      → polls_left source context t start limit w < fuel
      → Returned Still (wait_loop fuel dma true (u32 start) limit w)
  unfolding wait_loop
  wait_loop-Returned zero dma start limit w h v f = absurd (omega arith)
  wait_loop-Returned (suc fuel) dma start limit w h v f = elim (get_state-Polled dma w) [
    | inl stale ↦ rw stale (inr (invalid_argument, refl))
    | inr (DasDmaState.complete, d, e) ↦
        rw e (inl (refl, (polled-Waiting dma start limit d w v).installed))
    | inr (DasDmaState.error, d, e) ↦ rw e (inr (io, refl))
    | inr (DasDmaState.idle, d, e) ↦ rw e (inr (not_ready, refl))
    | inr (DasDmaState.busy, d, e) ↦
        rw
          (
            e,
            elapsed-Waiting source context t start limit (polled dma d w)
                (polled-Waiting dma start limit d w v) h,
          )
          (elim (Bool-cases
            (leb (start + limit) (t.now (asked source context t (polled dma d w)).hw))) [
              | inl expired ↦ rw expired (
                  inr (
                    timeout,
                    discarded (das_dma_abort dma (asked source context t (polled dma d w))) timeout
                        (abort-cases dma (asked source context t (polled dma d w))),
                  ))
              | inr early ↦
                  let (v2, fewer) =
                    asked-Waiting source context t start limit (polled dma d w)
                      (polled-Waiting dma start limit d w v) early in
                  rw early (
                    wait_loop-Returned fuel dma start limit
                      (asked source context t (polled dma d w)) h v2
                      (omega (arith, fewer, polls_left-polled dma start limit d w)))
            ])
  ]

  is_ready : (w : World p) → Installed source context w → das_time_is_ready w ≡ (ok true, w)
  unfolding das_time_is_ready
  is_ready w i = ground (arith, i.source_set)

  -- Under an advancing source, a wait for any token with any timeout but `DAS_DMA_WAIT_FOREVER`, one
  -- that is too long included, returns: with `DAS_OK`, or with an error, whatever the DMA controller does, when it has fuel for
  -- `(timeout_ms + 1) * (patience + 1)` polls.
  pub das_dma_wait_timeout-Returned :
      (fuel dma timeout_ms : ℕ) (w : World p)
      → Installed source context w
      → timeout_ms ≢ das_dma_wait_forever
      → (timeout_ms + 1) * (t.patience + 1) ≤ fuel
      → Returned Still (das_dma_wait_timeout fuel dma timeout_ms w)
  unfolding das_dma_wait_timeout das_dma_is_valid
  das_dma_wait_timeout-Returned fuel dma timeout_ms w i h f =
      let begun : Waiting source context t (t.now (asked source context t w).hw) timeout_ms
          (asked source context t w) =
        record {
          installed = record { source_set = i.source_set; context_set = i.context_set };
          begun = omega arith;
          within = omega arith;
        } in
      let finite : (timeout_ms != das_dma_wait_forever) ≡ true = ground arith in
      elim (Bool-cases (handle_valid w.dma dma)) [
        | inl valid ↦ elim (Bool-cases (ltb das_time_max_interval_ms timeout_ms)) [
          | inl long ↦ rw (valid, finite, long) (inr (invalid_argument, refl))
          | inr short ↦
              rw (valid, finite, short, is_ready w i, das_time_now_ms_lem source context t w i)
                (wait_loop-Returned fuel dma (t.now (asked source context t w).hw) timeout_ms
                  (asked source context t w) (ground arith) begun
                  (omega (
                    arith,
                    t.patient (asked source context t w).hw,
                    mul_mono
                        (t.now (asked source context t w).hw
                          + timeout_ms
                          - t.now (asked source context t w).hw)
                        timeout_ms (t.patience + 1) (omega arith),
                  )))
        ]
        | inr stale ↦ rw stale (inr (invalid_argument, refl))
      ]
