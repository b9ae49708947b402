-- ===== src/Uart/Answered.antt =====
-- How UART reads and writes with a timeout end, under a source that advances.
use device_abstraction_stack.Base.{
  ℕ, ◌+◌, ◌*◌, ◌≤◌, ◌≡◌, ◌≢◌, ltb, true, inl, inr, arith, refl, false, not, ◌&&◌, ◌||◌, Bool-cases,
  has_bits, ◌==◌, ◌!=◌,
}
use device_abstraction_stack.Api.Time.{das_time_max_interval_ms}
use device_abstraction_stack.Api.Uart.{das_uart_wait_forever}
use device_abstraction_stack.Machine.Reg.{Reg}
use device_abstraction_stack.Machine.Platform.{Platform}
use device_abstraction_stack.Machine.World.{World}
use device_abstraction_stack.Machine.Monad.{M, invalid_argument, not_ready, ok, err, and_then, ◌>>◌}
use device_abstraction_stack.Machine.Success.{Returned, and_then-Returned}
use device_abstraction_stack.Time.{das_time_is_ready}
use device_abstraction_stack.Time.Clock.{Ticking, Installed, das_time_now_ms_lem}
use device_abstraction_stack.Time.Waiting.{Apart, asked}
use device_abstraction_stack.Time.Limit.{Within, after, enough, begun, Answered, answered}
use device_abstraction_stack.Uart.Wait.{UartWait, wait_for_flag, prepare_wait}
use device_abstraction_stack.Uart.Setup.{resolve_uart, application_data_mask}
use device_abstraction_stack.Uart.Polled.{
  write_bytes, das_uart_write_timeout, das_uart_read_timeout, require_enabled,
}
use device_abstraction_stack.Uart.Timeout.{
  finite_wait, wait_for_flag-Returned, write_bytes-Returned, read_bytes-Returned,
}

module _ ⦃p : Platform⦄ (source context : ℕ) (t : Ticking p source context)
    (apart : Apart p source context t) where
  prepare_wait-finite :
      (timeout_ms : ℕ) (w : World p)
      → Installed source context w
      → timeout_ms ≤ das_time_max_interval_ms
      → prepare_wait timeout_ms w ≡ (
        ok (finite_wait (t.now (asked source context t w).hw) timeout_ms),
        asked source context t w,
      )
  unfolding prepare_wait das_time_is_ready
  prepare_wait-finite timeout_ms w i h =
      ground (arith, das_time_now_ms_lem source context t w i, i.source_set)

  prepare_wait-refused :
      (timeout_ms : ℕ) (w : World p)
      → timeout_ms ≢ das_uart_wait_forever
      → ltb das_time_max_interval_ms timeout_ms ≡ true
      → prepare_wait timeout_ms w ≡ (err invalid_argument, w)
  unfolding prepare_wait
  prepare_wait-refused timeout_ms w h long = ground arith

  -- What follows the preparation of a wait returns, if it does so for a wait of an admissible length.
  prepared-Answered :
      (timeout_ms : ℕ) (w : World p) (rest : UartWait → M (Unit {0}))
      → Installed source context w
      → timeout_ms ≢ das_uart_wait_forever
      → (timeout_ms ≤ das_time_max_interval_ms
          → Answered source context t apart (
              rest
                (finite_wait (t.now (asked source context t w).hw) timeout_ms)
                (asked source context t w)))
      → Answered source context t apart (and_then (prepare_wait timeout_ms w) rest)
  prepared-Answered timeout_ms w rest i h k =
      elim (Bool-cases (ltb das_time_max_interval_ms timeout_ms)) [
        | inl long ↦ rw (prepare_wait-refused timeout_ms w h long) (inr (invalid_argument, refl))
        | inr short ↦
            let below : timeout_ms ≤ das_time_max_interval_ms = ground arith in
            rw (prepare_wait-finite timeout_ms w i below) (k below)
      ]

  -- The read of the data mask after the wait was prepared at `w`.
  masked :
      (uart limit : ℕ) (w : World p)
      → Installed source context w
      → Within source context t apart
          (t.now (asked source context t w).hw)
          limit
          (record w { hw = (p.read (Reg.usart_cr1 uart) (asked source context t w).hw).1 })
  masked uart limit w i =
      after source context t apart (p.read (Reg.usart_cr1 uart) (asked source context t w).hw).1
        (begun source context t apart limit w i)
        (apart.reads (Reg.usart_cr1 uart) (asked source context t w).hw).0

  write_all-Returned :
      (size fuel uart data_mask start limit bytes : ℕ) (w : World p)
      → limit ≤ das_time_max_interval_ms
      → (limit + 1) * (t.patience + 1) ≤ fuel
      → Within source context t apart start limit w
      → Returned (Within source context t apart start limit) (
          (write_bytes size fuel uart data_mask (finite_wait start limit) bytes 0
              >> wait_for_flag fuel uart p.cmsis.usart.isr_tc false (finite_wait start limit))
            w)
  write_all-Returned size fuel uart data_mask start limit bytes w h f v =
      and_then-Returned (Within source context t apart start limit)
        (Within source context t apart start limit)
        (write_bytes size fuel uart data_mask (finite_wait start limit) bytes 0 w) _
        (write_bytes-Returned source context t apart size fuel uart data_mask start limit bytes 0 w
          h f v)
        (λ u d.
          wait_for_flag-Returned source context t apart fuel uart p.cmsis.usart.isr_tc false start
            limit u h d (enough source context t apart fuel start limit u f d))

  -- Under an advancing source, a write of any bytes to any handle with any timeout but
  -- `DAS_UART_WAIT_FOREVER`, one that is too long included, returns, with `DAS_OK` or an error,
  -- whatever the UART does, when each of its waits has fuel for
  -- `(timeout_ms + 1) * (patience + 1)` polls.
  pub das_uart_write_timeout-Answered :
      (fuel uart bytes size timeout_ms : ℕ) (w : World p)
      → Installed source context w
      → timeout_ms ≢ das_uart_wait_forever
      → (timeout_ms + 1) * (t.patience + 1) ≤ fuel
      → Answered source context t apart (das_uart_write_timeout fuel uart bytes size timeout_ms w)
  unfolding das_uart_write_timeout require_enabled application_data_mask
  das_uart_write_timeout-Answered fuel uart bytes size timeout_ms w i h f =
      elim (Bool-cases (size != 0 && bytes == 0 || not (resolve_uart uart))) [
        | inl invalid ↦ rw invalid (inr (invalid_argument, refl))
        | inr valid ↦ rw valid (elim (Bool-cases (size == 0)) [
          | inl none ↦ rw none (inl (refl, i))
          | inr some_bytes ↦
              rw some_bytes
                (elim (Bool-cases
                  (has_bits (p.read (Reg.usart_cr1 uart) w.hw).0 p.cmsis.usart.cr1_ue)) [
                    | inl enabled ↦
                        let w1 : World p = record w { hw = (p.read (Reg.usart_cr1 uart) w.hw).1 } in
                        let i1 : Installed source context w1 = record {
                          source_set = i.source_set;
                          context_set = i.context_set;
                        } in
                        rw enabled (
                          prepared-Answered timeout_ms w1 _ i1 h λ short.
                            answered source context t apart _ (
                              write_all-Returned size fuel uart _ _ timeout_ms bytes _ short f
                                (masked uart timeout_ms w1 i1)))
                    | inr disabled ↦ rw disabled (inr (not_ready, refl))
                  ])
        ])
      ]

  -- Under an advancing source, a read of any bytes from any handle with any timeout but
  -- `DAS_UART_WAIT_FOREVER`, one that is too long included, returns, with `DAS_OK` or an error,
  -- whatever the UART does, when each of its waits has fuel for
  -- `(timeout_ms + 1) * (patience + 1)` polls.
  pub das_uart_read_timeout-Answered :
      (fuel uart bytes size timeout_ms : ℕ) (w : World p)
      → Installed source context w
      → timeout_ms ≢ das_uart_wait_forever
      → (timeout_ms + 1) * (t.patience + 1) ≤ fuel
      → Answered source context t apart (das_uart_read_timeout fuel uart bytes size timeout_ms w)
  unfolding das_uart_read_timeout require_enabled application_data_mask
  das_uart_read_timeout-Answered fuel uart bytes size timeout_ms w i h f =
      elim (Bool-cases (size != 0 && bytes == 0 || not (resolve_uart uart))) [
        | inl invalid ↦ rw invalid (inr (invalid_argument, refl))
        | inr valid ↦ rw valid (elim (Bool-cases (size == 0)) [
          | inl none ↦ rw none (inl (refl, i))
          | inr some_bytes ↦
              rw some_bytes
                (elim (Bool-cases
                  (has_bits (p.read (Reg.usart_cr1 uart) w.hw).0 p.cmsis.usart.cr1_ue)) [
                    | inl enabled ↦
                        let w1 : World p = record w { hw = (p.read (Reg.usart_cr1 uart) w.hw).1 } in
                        let i1 : Installed source context w1 = record {
                          source_set = i.source_set;
                          context_set = i.context_set;
                        } in
                        rw enabled (
                          prepared-Answered timeout_ms w1 _ i1 h λ short.
                            answered source context t apart _ (
                              read_bytes-Returned source context t apart size fuel uart _ _
                                timeout_ms bytes 0 _ short f (masked uart timeout_ms w1 i1)))
                    | inr disabled ↦ rw disabled (inr (not_ready, refl))
                  ])
        ])
      ]
