-- ===== src/Spi/Wait.antt =====
-- The timeout of a transfer, `spi_wait_t`.
use device_abstraction_stack.Base.{ℕ, Bool, true, false, not, ltb, ◌==◌, if◌then◌else◌}
use device_abstraction_stack.Api.Time.{das_time_max_interval_ms}
use device_abstraction_stack.Api.Spi.{das_spi_wait_forever}
use device_abstraction_stack.Machine.Platform.{Platform}
use device_abstraction_stack.Machine.Monad.{
  M, invalid_argument, not_ready, return, fail_if, ◌>>=◌, ◌>>◌,
}
use device_abstraction_stack.Time.{das_time_is_ready, das_time_now_ms, das_time_interval_elapsed}

pub record SpiWait : Type 0 where
  pub finite : Bool
  pub start_ms : ℕ
  pub timeout_ms : ℕ

abbrev pub without_limit : SpiWait
without_limit = record { finite = false; start_ms = 0; timeout_ms = 0 }

module _ ⦃p : Platform⦄ where
  unfoldable pub prepare_wait : ℕ → M SpiWait
  prepare_wait timeout_ms = if timeout_ms == das_spi_wait_forever then return without_limit else (do
    fail_if (ltb das_time_max_interval_ms timeout_ms) invalid_argument
    ready ← das_time_is_ready
    fail_if (not ready) not_ready
    start_ms ← das_time_now_ms
    return (record { finite = true; start_ms = start_ms; timeout_ms = timeout_ms }))

  unfoldable pub wait_expired : SpiWait → M Bool
  wait_expired wait =
      if wait.finite then das_time_interval_elapsed wait.start_ms wait.timeout_ms else return false
