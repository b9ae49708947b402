-- ===== src/Dma/Driver.antt =====
-- The public operations of include/das/dma.h, as src/device/stm32h755/dma.c implements them.
use device_abstraction_stack.Base.{
  ℕ, zero, suc, ◌+◌, Bool, true, false, not, ◌||◌, Option, none, some, bit_or, ltb, ◌==◌, ◌!=◌,
  if◌then◌else◌, u32, has_bits, update,
}
use device_abstraction_stack.Api.Dma.{DasDmaConfig, DasDmaState, das_dma_wait_forever}
use device_abstraction_stack.Api.Time.{das_time_max_interval_ms}
use device_abstraction_stack.Machine.Reg.{Reg, Barrier}
use device_abstraction_stack.Machine.Platform.{Platform}
use device_abstraction_stack.Machine.World.{DmaVars}
use device_abstraction_stack.Machine.Monad.{
  M, invalid_argument, not_ready, timeout, io, return, fail, spin, fail_if, ignore, ◌>>=◌, ◌>>◌,
  get_world, read_reg, write_reg, modify_reg, barrier, set_dma, ask_hw, do_hw,
}
use device_abstraction_stack.Time.{das_time_is_ready, das_time_now_ms, das_time_interval_elapsed}
use device_abstraction_stack.Dma.Handle.{stm32h755_dma_make_handle, stm32h755_dma_next_generation}
use device_abstraction_stack.Dma.Stream.{
  dma_stream_count, dma_max_count, dma_terminal_error_flags, dma_complete_flag, config_valid,
  address_aligned, handle_valid, handle_index, irq_from_index, stream_flags, clear_stream_flags,
  enable_dma_clock, stop_stream, require_disabled, stm32h755_dma_set_request, configured_cr,
  write_addresses, set_active,
}

-- `STM32H755_DMA_REQUEST_*` of src/device/stm32h755/dma_internal.h
abbrev pub dma_request_mem2mem : ℕ
dma_request_mem2mem = 0

abbrev pub dma_request_spi1_rx : ℕ
dma_request_spi1_rx = 37

abbrev pub dma_request_spi1_tx : ℕ
dma_request_spi1_tx = 38

-- The assignments of `das_dma_acquire` to the arrays for the free stream `index`.
unfoldable pub claim : ℕ → DmaVars → DmaVars
claim index d = record d {
  g_dma_claimed = update d.g_dma_claimed index true;
  g_dma_generation =
      update d.g_dma_generation index (stm32h755_dma_next_generation (d.g_dma_generation index));
  g_dma_configured = update d.g_dma_configured index false;
  g_dma_active = update d.g_dma_active index false;
}

-- Those of `das_dma_release`.
unfoldable pub unclaim : ℕ → DmaVars → DmaVars
unclaim index d = record d {
  g_dma_active = update d.g_dma_active index false;
  g_dma_configured = update d.g_dma_configured index false;
  g_dma_claimed = update d.g_dma_claimed index false;
}

module _ ⦃p : Platform⦄ where
  -- The loop of `das_dma_acquire` at `index`, with `left` streams to look at.
  unfoldable pub acquire_from : ℕ → ℕ → ℕ → M ℕ
  acquire_from zero index previous_primask = do
    do_hw (p.set_primask previous_primask)
    fail not_ready
  acquire_from (suc left) index previous_primask = do
    w ← get_world
    if w.dma.g_dma_claimed index then acquire_from left (index + 1) previous_primask else (do
      set_dma (claim index w.dma)
      w' ← get_world
      let dma = stm32h755_dma_make_handle index (w'.dma.g_dma_generation index)
      do_hw (p.set_primask previous_primask)
      clear_stream_flags index
      write_reg (Reg.dmamux_ccr index) 0
      return dma)

  -- On `DAS_ERROR_NOT_READY`, `*dma` is `DAS_DMA_INVALID`.
  unfoldable pub das_dma_acquire : Bool → M ℕ
  das_dma_acquire dma = do
    fail_if (not dma) invalid_argument
    enable_dma_clock
    previous_primask ← ask_hw p.get_primask
    do_hw p.disable_irq
    acquire_from dma_stream_count 0 previous_primask

  unfoldable pub das_dma_release : ℕ → M (Unit {0})
  das_dma_release dma = do
    index ← handle_index dma
    stop_stream index
    clear_stream_flags index
    write_reg (Reg.dmamux_ccr index) 0
    previous_primask ← ask_hw p.get_primask
    do_hw p.disable_irq
    w ← get_world
    if handle_valid w.dma dma
        then (do set_dma (unclaim index w.dma); do_hw (p.set_primask previous_primask))
        else (do do_hw (p.set_primask previous_primask); fail invalid_argument)

  unfoldable pub das_dma_is_valid : ℕ → M Bool
  das_dma_is_valid dma = do w ← get_world; return (handle_valid w.dma dma)

  -- The register writes of `das_dma_configure` and its assignments to the arrays.
  unfoldable pub configure_stream : ℕ → DasDmaConfig → ℕ → M (Unit {0})
  configure_stream index config cr = do
    write_reg (Reg.dma_cr index) cr
    write_reg (Reg.dma_ndtr index) 0
    write_reg (Reg.dma_par index) 0
    write_reg (Reg.dma_m0ar index) 0
    write_reg (Reg.dma_m1ar index) 0
    write_reg (Reg.dma_fcr index) 0
    clear_stream_flags index
    w ← get_world
    set_dma (record w.dma {
      g_dma_active = update w.dma.g_dma_active index false;
      g_dma_config = update w.dma.g_dma_config index config;
      g_dma_configured = update w.dma.g_dma_configured index true;
    })

  unfoldable pub configure_checked : ℕ → ℕ → DasDmaConfig → M (Unit {0})
  configure_checked dma index config = do
    require_disabled index
    elim (configured_cr config) [
      | none ↦ fail invalid_argument
      | some cr ↦ (do
        configure_stream index config cr
        stm32h755_dma_set_request dma dma_request_mem2mem)
    ]

  unfoldable pub das_dma_configure : ℕ → Option DasDmaConfig → M (Unit {0})
  das_dma_configure dma config = do
    index ← handle_index dma
    fail_if (not (config_valid config)) invalid_argument
    elim config [ none ↦ fail invalid_argument | some c ↦ configure_checked dma index c ]

  unfoldable pub das_dma_start : ℕ → ℕ → ℕ → ℕ → M (Unit {0})
  das_dma_start dma source destination count = do
    index ← handle_index dma
    w ← get_world
    fail_if (not (w.dma.g_dma_configured index) || source == 0 || destination == 0 || count == 0)
        invalid_argument
    fail_if (ltb dma_max_count count) invalid_argument
    let config = w.dma.g_dma_config index
    fail_if
        (not (address_aligned source config.source_width)
          || not (address_aligned destination config.destination_width))
        invalid_argument
    require_disabled index
    fail_if (w.dma.g_dma_active index) not_ready
    clear_stream_flags index
    write_reg (Reg.dma_ndtr index) (u32 count)
    write_addresses config.direction index source destination
    set_active index true
    barrier Barrier.dsb
    modify_reg (Reg.dma_cr index) (λ cr. bit_or cr p.cmsis.dma.en)
    barrier Barrier.dsb

  unfoldable pub das_dma_get_state : ℕ → Bool → M DasDmaState
  das_dma_get_state dma state = do
    index ← handle_index dma
    fail_if (not state) invalid_argument
    flags ← stream_flags index
    w ← get_world
    if has_bits flags dma_terminal_error_flags
        then (do set_active index false; return DasDmaState.error)
        else if has_bits flags dma_complete_flag
        then (do set_active index false; return DasDmaState.complete)
        else if w.dma.g_dma_active index
        then return DasDmaState.busy
        else return DasDmaState.idle

  unfoldable pub das_dma_get_remaining : ℕ → Bool → M ℕ
  das_dma_get_remaining dma remaining = do
    index ← handle_index dma
    fail_if (not remaining) invalid_argument
    read_reg (Reg.dma_ndtr index)

  unfoldable pub das_dma_abort : ℕ → M (Unit {0})
  das_dma_abort dma = do
    index ← handle_index dma
    stop_stream index
    clear_stream_flags index
    set_active index false

  -- The loop of `das_dma_wait_timeout`, with fuel for its rounds.
  unfoldable pub wait_loop : ℕ → ℕ → Bool → ℕ → ℕ → M (Unit {0})
  wait_loop zero dma finite start timeout_ms = spin
  wait_loop (suc fuel) dma finite start timeout_ms = do
    state ← das_dma_get_state dma true
    elim state [
      | DasDmaState.complete ↦ return tt
      | DasDmaState.error ↦ fail io
      | DasDmaState.idle ↦ fail not_ready
      | DasDmaState.busy ↦ (do
        elapsed ← if finite then das_time_interval_elapsed start timeout_ms else return false
        if elapsed
            then (do ignore (das_dma_abort dma); fail timeout)
            else wait_loop fuel dma finite start timeout_ms)
    ]

  unfoldable pub das_dma_wait_timeout : ℕ → ℕ → ℕ → M (Unit {0})
  das_dma_wait_timeout fuel dma timeout_ms = do
    valid ← das_dma_is_valid dma
    fail_if (not valid) invalid_argument
    let finite = timeout_ms != das_dma_wait_forever
    start ←
        if finite
        then (do
          fail_if (ltb das_time_max_interval_ms timeout_ms) invalid_argument
          ready ← das_time_is_ready
          fail_if (not ready) not_ready
          das_time_now_ms)
        else return 0
    wait_loop fuel dma finite start timeout_ms

  unfoldable pub das_dma_wait : ℕ → ℕ → M (Unit {0})
  das_dma_wait fuel dma = das_dma_wait_timeout fuel dma das_dma_wait_forever

  unfoldable pub das_dma_get_irq : ℕ → Bool → M ℕ
  das_dma_get_irq dma irq = do
    index ← handle_index dma
    fail_if (not irq) invalid_argument
    return (irq_from_index index)
