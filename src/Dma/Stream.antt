-- ===== src/Dma/Stream.antt =====
-- The helpers of src/device/stm32h755/dma.c on one stream.
use device_abstraction_stack.Base.{
  ℕ, zero, suc, Bool, false, not, ◌||◌, Option, none, some, bit_and, bit_or, ltb, ◌==◌,
  if◌then◌else◌, ◌<<<◌, ◌>>>◌, u32, sub32, bit_not, bit_clear, has_bits, update,
}
use device_abstraction_stack.Api.Dma.{
  DasDmaConfig, das_dma_width_byte, das_dma_width_halfword, das_dma_width_word,
  das_dma_memory_to_memory, das_dma_peripheral_to_memory, das_dma_memory_to_peripheral,
}
use device_abstraction_stack.Machine.Reg.{Reg, Barrier}
use device_abstraction_stack.Machine.Platform.{Platform}
use device_abstraction_stack.Machine.World.{DmaVars}
use device_abstraction_stack.Machine.Monad.{
  M, invalid_argument, not_ready, timeout, return, fail, fail_if, ◌>>=◌, ◌>>◌, get_world, read_reg,
  write_reg, modify_reg, barrier, set_dma,
}
use device_abstraction_stack.Dma.Handle.{stm32h755_dma_handle_index, stm32h755_dma_handle_matches}

abbrev pub dma_stream_count : ℕ
dma_stream_count = 8

abbrev pub dma_max_count : ℕ
dma_max_count = 0xffff

abbrev pub dma_all_flags : ℕ
dma_all_flags = 0x3d

abbrev pub dma_terminal_error_flags : ℕ
dma_terminal_error_flags = 0x08

abbrev pub dma_complete_flag : ℕ
dma_complete_flag = 0x20

abbrev pub dma_disable_spins : ℕ
dma_disable_spins = 100000

unfoldable pub flag_shift : ℕ → ℕ
flag_shift index =
    let i = bit_and index 3 in
    if i == 0 then 0 else (if i == 1 then 6 else (if i == 2 then 16 else 22))

unfoldable pub width_valid : ℕ → Bool
width_valid width =
    width == das_dma_width_byte || width == das_dma_width_halfword || width == das_dma_width_word

unfoldable pub width_code : ℕ → ℕ
width_code width =
    if width == das_dma_width_halfword then 1 else (if width == das_dma_width_word then 2 else 0)

-- A null pointer is `none`.
unfoldable pub config_valid : Option DasDmaConfig → Bool
config_valid none = false
config_valid (some config) =
    if not (width_valid config.source_width) || not (width_valid config.destination_width)
    then false
    else if ltb das_dma_memory_to_memory config.direction
    then false
    else config.source_width == config.destination_width

unfoldable pub address_aligned : ℕ → ℕ → Bool
address_aligned address width = bit_and address (sub32 width 1) == 0

-- What `handle_index` answers, in the state of the driver.
unfoldable pub handle_valid : DmaVars → ℕ → Bool
handle_valid d dma =
    let stream_index = stm32h755_dma_handle_index dma in
    stm32h755_dma_handle_matches dma (d.g_dma_generation stream_index)
      (d.g_dma_claimed stream_index)

module _ ⦃p : Platform⦄ where
  unfoldable pub irq_from_index : ℕ → ℕ
  irq_from_index index =
      if ltb index 7 then p.cmsis.dma.stream_irqn index else p.cmsis.dma.stream_irqn 7

  -- `if (!handle_index(dma, &index)) return DAS_ERROR_INVALID_ARGUMENT;`
  unfoldable pub handle_index : ℕ → M ℕ
  handle_index dma = do
    w ← get_world
    if handle_valid w.dma dma
        then return (stm32h755_dma_handle_index dma)
        else fail invalid_argument

  unfoldable pub stream_flags : ℕ → M ℕ
  stream_flags index = do
    status ← read_reg (if ltb index 4 then Reg.dma_lisr else Reg.dma_hisr)
    return (bit_and (status >>> flag_shift index) dma_all_flags)

  unfoldable pub clear_stream_flags : ℕ → M (Unit {0})
  clear_stream_flags index = do
    let flags = dma_all_flags <<< flag_shift index
    write_reg (if ltb index 4 then Reg.dma_lifcr else Reg.dma_hifcr) flags
    write_reg Reg.dmamux_cfr (1 <<< index)

  unfoldable pub enable_dma_clock : M (Unit {0})
  enable_dma_clock = do
    modify_reg Reg.core_ahb1enr (λ v. bit_or v p.cmsis.dma.rcc_dma1en)
    unused ← read_reg Reg.core_ahb1enr
    barrier Barrier.dsb

  -- The polls of `stop_stream` that are left.
  unfoldable pub stop_polls : ℕ → ℕ → M (Unit {0})
  stop_polls zero index = fail timeout
  stop_polls (suc left) index = do
    cr ← read_reg (Reg.dma_cr index)
    if has_bits cr p.cmsis.dma.en then stop_polls left index else return tt

  unfoldable pub stop_stream : ℕ → M (Unit {0})
  stop_stream index = do
    modify_reg (Reg.dma_cr index) (λ cr. bit_clear cr p.cmsis.dma.en)
    barrier Barrier.dsb
    stop_polls dma_disable_spins index

  -- `if ((stream->CR & DMA_SxCR_EN) != 0u) return DAS_ERROR_NOT_READY;`
  unfoldable pub require_disabled : ℕ → M (Unit {0})
  require_disabled index = do
    cr ← read_reg (Reg.dma_cr index)
    fail_if (has_bits cr p.cmsis.dma.en) not_ready

  unfoldable pub stm32h755_dma_set_request : ℕ → ℕ → M (Unit {0})
  stm32h755_dma_set_request dma request = do
    index ← handle_index dma
    fail_if (has_bits request (bit_not p.cmsis.dma.dmareq_id)) invalid_argument
    require_disabled index
    modify_reg (Reg.dmamux_ccr index) (λ ccr.
        bit_or (bit_clear ccr p.cmsis.dma.dmareq_id) (bit_and request p.cmsis.dma.dmareq_id))
    write_reg Reg.dmamux_cfr (1 <<< index)
    barrier Barrier.dsb

  -- `if (flag) cr |= bits;`
  abbrev pub or_if : Bool → ℕ → ℕ → ℕ
  or_if flag bits cr = if flag then bit_or cr bits else cr

  -- The control word that `das_dma_configure` computes; `none` is the default branch of its switch.
  unfoldable pub configured_cr : DasDmaConfig → Option ℕ
  configured_cr config =
      let dma = p.cmsis.dma in
      let source = width_code config.source_width in
      let destination = width_code config.destination_width in
      if config.direction == das_dma_peripheral_to_memory
      then some (
          bit_or
            (bit_or
              (or_if config.destination_increment dma.minc
                (or_if config.source_increment dma.pinc dma.pl_1))
              (source <<< dma.psize_pos))
            (destination <<< dma.msize_pos))
      else if config.direction == das_dma_memory_to_peripheral
      then some (
          bit_or
            (bit_or
              (or_if config.destination_increment dma.pinc
                (or_if config.source_increment dma.minc (bit_or dma.pl_1 dma.dir_0)))
              (source <<< dma.msize_pos))
            (destination <<< dma.psize_pos))
      else if config.direction == das_dma_memory_to_memory
      then some (
          bit_or
            (bit_or
              (or_if config.destination_increment dma.minc
                (or_if config.source_increment dma.pinc (bit_or dma.pl_1 dma.dir_1)))
              (source <<< dma.psize_pos))
            (destination <<< dma.msize_pos))
      else none

  -- The addresses that `das_dma_start` writes, by direction.
  unfoldable pub write_addresses : ℕ → ℕ → ℕ → ℕ → M (Unit {0})
  write_addresses direction index source destination =
      if direction == das_dma_peripheral_to_memory
      then (do
        write_reg (Reg.dma_par index) (u32 source)
        write_reg (Reg.dma_m0ar index) (u32 destination))
      else if direction == das_dma_memory_to_peripheral
      then (do
        write_reg (Reg.dma_par index) (u32 destination)
        write_reg (Reg.dma_m0ar index) (u32 source))
      else if direction == das_dma_memory_to_memory
      then (do
        write_reg (Reg.dma_par index) (u32 source)
        write_reg (Reg.dma_m0ar index) (u32 destination))
      else fail invalid_argument

  -- `g_dma_active[index] = active;`
  unfoldable pub set_active : ℕ → Bool → M (Unit {0})
  set_active index active = do
    w ← get_world
    set_dma (record w.dma { g_dma_active = update w.dma.g_dma_active index active })
