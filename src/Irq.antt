-- ===== src/Irq.antt =====
-- src/mcu/cortex_m/irq.c: the interrupt lines of the NVIC. A handle is its line.
use device_abstraction_stack.Base.{ℕ, Bool, not, ◌||◌, ltb, leb, ◌!=◌, ◌<<<◌}
use device_abstraction_stack.Machine.Platform.{Platform}
use device_abstraction_stack.Machine.Monad.{
  M, invalid_argument, return, fail_if, ◌>>=◌, ◌>>◌, do_hw, ask_hw,
}

module _ ⦃p : Platform⦄ where
  unfoldable pub irq_valid : ℕ → Bool
  irq_valid irq = ltb irq p.cmsis.core.nvic_line_count

  unfoldable pub das_irq_is_valid : ℕ → Bool
  das_irq_is_valid irq = irq_valid irq

  unfoldable pub das_irq_priority_levels : ℕ
  das_irq_priority_levels = 1 <<< p.cmsis.core.nvic_prio_bits

  -- An operation on a line that returns nothing.
  unfoldable pub on_line : ℕ → (p.State → p.State) → M (Unit {0})
  on_line irq f = do fail_if (not (irq_valid irq)) invalid_argument; do_hw f

  -- A query of a line, with the output pointer given or not.
  unfoldable pub ask_line : ℕ → Bool → (p.State → ℕ × p.State) → M ℕ
  ask_line irq output f = do fail_if (not (irq_valid irq) || not output) invalid_argument; ask_hw f

  unfoldable pub das_irq_enable : ℕ → M (Unit {0})
  das_irq_enable irq = on_line irq (p.nvic_enable irq)

  unfoldable pub das_irq_disable : ℕ → M (Unit {0})
  das_irq_disable irq = on_line irq (p.nvic_disable irq)

  unfoldable pub das_irq_is_enabled : ℕ → Bool → M Bool
  das_irq_is_enabled irq enabled = do
    value ← ask_line irq enabled (p.nvic_get_enable irq)
    return (value != 0)

  unfoldable pub das_irq_set_priority : ℕ → ℕ → M (Unit {0})
  das_irq_set_priority irq priority = do
    fail_if (not (irq_valid irq) || leb das_irq_priority_levels priority) invalid_argument
    do_hw (p.nvic_set_priority irq priority)

  unfoldable pub das_irq_get_priority : ℕ → Bool → M ℕ
  das_irq_get_priority irq priority = ask_line irq priority (p.nvic_get_priority irq)

  unfoldable pub das_irq_set_pending : ℕ → M (Unit {0})
  das_irq_set_pending irq = on_line irq (p.nvic_set_pending irq)

  unfoldable pub das_irq_clear_pending : ℕ → M (Unit {0})
  das_irq_clear_pending irq = on_line irq (p.nvic_clear_pending irq)

  unfoldable pub das_irq_is_pending : ℕ → Bool → M Bool
  das_irq_is_pending irq pending = do
    value ← ask_line irq pending (p.nvic_get_pending irq)
    return (value != 0)
