-- ===== src/Time.antt =====
-- src/common/time.c and src/mcu/cortex_m/time.c: the monotonic millisecond time, its sources, and
-- the SysTick backend. `das_time_ms_t` is a `uint32_t`.
pub mod Clock
pub mod Delay
pub mod Deadline
pub mod Waiting
pub mod Limit
use device_abstraction_stack.Base.{
  ℕ, zero, suc, ◌+◌, ◌-◌, ◌/◌, ◌%◌, Bool, true, false, not, ◌&&◌, ◌||◌, Option, none, some, u32,
  sub32, ltb, leb, ◌==◌, ◌!=◌, if◌then◌else◌,
}
use device_abstraction_stack.Api.Time.{das_time_max_interval_ms}
use device_abstraction_stack.Machine.Reg.{Reg, Barrier}
use device_abstraction_stack.Machine.Platform.{Platform}
use device_abstraction_stack.Machine.World.{TimeSource, systick_now_ms, external, TimeVars}
use device_abstraction_stack.Machine.Monad.{
  M, invalid_argument, not_ready, unsupported, return, fail, spin, fail_if, ◌>>=◌, ◌>>◌, get_world,
  set_time, ask_hw, write_reg, barrier,
}

unfoldable pub interval_valid : ℕ → Bool
interval_valid interval_ms = leb interval_ms das_time_max_interval_ms

abbrev pub systick_hz : ℕ
systick_hz = 1000

module _ ⦃p : Platform⦄ where
  -- `++g_systick_ms`, in the interrupt handler
  pub das_cortex_m_systick_hook : TimeVars → TimeVars
  das_cortex_m_systick_hook t = record t { g_systick_ms = u32 (t.g_systick_ms + 1) }

  pub take_systicks : ℕ → TimeVars → TimeVars
  take_systicks zero t = t
  take_systicks (suc n) t = take_systicks n (das_cortex_m_systick_hook t)

  -- The counter is volatile: the interrupts taken up to this read have run the hook.
  unfoldable pub das_cortex_m_systick_now_ms : M ℕ
  das_cortex_m_systick_now_ms = do
    n ← ask_hw p.systick_taken
    w ← get_world
    set_time (take_systicks n w.time)
    w' ← get_world
    return w'.time.g_systick_ms

  unfoldable pub das_cortex_m_systick_configure : ℕ → M (Unit {0})
  das_cortex_m_systick_configure core_frequency_hz = do
    fail_if (core_frequency_hz == 0 || core_frequency_hz % systick_hz != 0) invalid_argument
    let ticks = core_frequency_hz / systick_hz
    fail_if (ticks == 0 || ltb p.cmsis.core.systick_load_reload_msk (ticks - 1)) unsupported
    write_reg Reg.systick_ctrl 0
    write_reg Reg.systick_val 0
    status ← ask_hw (p.systick_config ticks)
    fail_if (status != 0) unsupported
    barrier Barrier.dsb
    barrier Barrier.isb

  -- A null function pointer is `none`.
  unfoldable pub das_time_set_source : Option TimeSource → ℕ → M (Unit {0})
  das_time_set_source none context = fail invalid_argument
  das_time_set_source (some source) context = do
    w ← get_world
    set_time (record w.time { g_time_source_context = context; g_time_source = some source })

  abbrev pub is_some {ℓ} : {A : Type ℓ} → Option A → Bool
  is_some none = false
  is_some (some a) = true

  unfoldable pub das_time_is_ready : M Bool
  das_time_is_ready = do w ← get_world; return (is_some w.time.g_time_source)

  -- `source(g_time_source_context)`; the result is a `uint32_t`
  unfoldable pub call_time_source : TimeSource → ℕ → M ℕ
  call_time_source systick_now_ms context = das_cortex_m_systick_now_ms
  call_time_source (external f) context = do t ← ask_hw (p.call_source f context); return (u32 t)

  unfoldable pub das_time_now_ms : M ℕ
  das_time_now_ms = do
    w ← get_world
    elim w.time.g_time_source [
      | none ↦ return 0
      | some source ↦ call_time_source source w.time.g_time_source_context
    ]

  unfoldable pub das_time_elapsed_ms : ℕ → M ℕ
  das_time_elapsed_ms start_ms = do
    ready ← das_time_is_ready
    if ready then (do now ← das_time_now_ms; return (sub32 now start_ms)) else return 0

  unfoldable pub das_time_interval_elapsed : ℕ → ℕ → M Bool
  das_time_interval_elapsed start_ms interval_ms = do
    ready ← das_time_is_ready
    if ready && interval_valid interval_ms
        then (do elapsed ← das_time_elapsed_ms start_ms; return (leb interval_ms elapsed))
        else return false

  -- The Boolean says whether `deadline_ms` is given.
  unfoldable pub das_time_deadline_after : ℕ → Bool → M ℕ
  das_time_deadline_after delay_ms deadline_ms = do
    fail_if (not deadline_ms || not (interval_valid delay_ms)) invalid_argument
    ready ← das_time_is_ready
    fail_if (not ready) not_ready
    now ← das_time_now_ms
    return (u32 (now + delay_ms))

  unfoldable pub das_time_deadline_reached : ℕ → M Bool
  das_time_deadline_reached deadline_ms = do
    ready ← das_time_is_ready
    if ready
        then (do
          now ← das_time_now_ms
          return (leb (sub32 now deadline_ms) das_time_max_interval_ms))
        else return false

  -- The busy wait of `das_delay_ms`, with fuel for its polls.
  pub delay_loop : ℕ → ℕ → ℕ → M (Unit {0})
  delay_loop zero start_ms duration_ms = spin
  delay_loop (suc fuel) start_ms duration_ms = do
    now ← das_time_now_ms
    if ltb (sub32 now start_ms) duration_ms then delay_loop fuel start_ms duration_ms else return tt

  unfoldable pub das_delay_ms : ℕ → ℕ → M (Unit {0})
  das_delay_ms fuel duration_ms = do
    fail_if (not (interval_valid duration_ms)) invalid_argument
    if duration_ms == 0 then return tt else (do
      ready ← das_time_is_ready
      fail_if (not ready) not_ready
      start_ms ← das_time_now_ms
      delay_loop fuel start_ms duration_ms)
