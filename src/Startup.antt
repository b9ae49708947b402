-- ===== src/Startup.antt =====
-- src/mcu/cortex_m/startup.c: what the reset handler does to memory before it calls `main`.
pub mod Sections
use device_abstraction_stack.Base.{ℕ, zero, suc, ◌+◌, Option, none, some, ltb, ◌==◌, if◌then◌else◌}

-- Memory by its words, whose addresses are multiples of 4.
abbrev pub Memory : Type 0
Memory = ℕ → ℕ

-- The symbols of the linker script.
pub record Linked : Type 0 where
  pub data_load : ℕ
  pub data_start : ℕ
  pub data_end : ℕ
  pub bss_start : ℕ
  pub bss_end : ℕ

-- `*address = value`
unfoldable pub store : ℕ → ℕ → Memory → Memory
store address value m a = if a == address then value else m a

-- The first loop of `initialize_c_runtime`, on fuel.
unfoldable pub copy_data : ℕ → ℕ → ℕ → ℕ → Memory → Option Memory
copy_data zero source destination end_ m = none
copy_data (suc fuel) source destination end_ m =
    let rest =
      copy_data fuel (source + 4) (destination + 4) end_ (store destination (m source) m) in
    if ltb destination end_ then rest else some m

-- The second loop, on fuel.
unfoldable pub zero_bss : ℕ → ℕ → ℕ → Memory → Option Memory
zero_bss zero destination end_ m = none
zero_bss (suc fuel) destination end_ m =
    let rest = zero_bss fuel (destination + 4) end_ (store destination 0 m) in
    if ltb destination end_ then rest else some m

unfoldable pub initialize_c_runtime : ℕ → Linked → Memory → Option Memory
initialize_c_runtime fuel linked m =
    elim (copy_data fuel linked.data_load linked.data_start linked.data_end m) [
      | none ↦ none
      | some copied ↦ zero_bss fuel linked.bss_start linked.bss_end copied
    ]
