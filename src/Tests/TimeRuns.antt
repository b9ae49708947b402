-- ===== src/Tests/TimeRuns.antt =====
-- The time functions and the waits of the drivers on the quiet board.
use device_abstraction_stack.Base.{◌==◌, ℕ, ◌+◌, ◌≡◌, refl, arith, true, leb, u32}
use device_abstraction_stack.Machine.World.{World}
use device_abstraction_stack.Machine.Monad.{ok}
use device_abstraction_stack.Time.{
  das_time_now_ms, das_time_is_ready, das_time_deadline_after, das_time_deadline_reached,
  das_time_interval_elapsed, das_delay_ms, call_time_source, interval_valid,
}
use device_abstraction_stack.Time.Clock.{Installed}
use device_abstraction_stack.Time.Delay.{WaitedUntil, das_delay_ms-WaitedUntil}
use device_abstraction_stack.Time.Deadline.{
  das_time_interval_elapsed_lem, das_time_deadline_reached_lem,
}
use device_abstraction_stack.Uart.Polled.{das_uart_write_timeout, das_uart_read_timeout}
use device_abstraction_stack.Time.Limit.{Answered}
use device_abstraction_stack.Uart.Answered.{
  das_uart_write_timeout-Answered, das_uart_read_timeout-Answered,
}
use device_abstraction_stack.Machine.Success.{Returned}
use device_abstraction_stack.Dma.Driver.{das_dma_wait_timeout}
use device_abstraction_stack.Dma.Timeout.{Still, das_dma_wait_timeout-Returned}
use device_abstraction_stack.Tests.Board.{board, fresh, no_streams, ticking, installed, apart}

-- The board when the source has last reported a time just before the wrap-around.
abbrev late : ℕ → World board
late s = record fresh { hw = s }

due : (das_time_deadline_after ⦃p = board⦄ 20 true (late 0xffff_fff0)).0 ≡ ok 5
unfolding das_time_deadline_after das_time_now_ms das_time_is_ready call_time_source interval_valid
due = refl

das_delay_ms-WaitedUntil_example :
    WaitedUntil ⦃p = board⦄ 7 9 ticking
      (0xffff_fff0 + 20)
      (late 0xffff_fff0)
      (das_delay_ms ⦃p = board⦄ 22 20 (late 0xffff_fff0))
das_delay_ms-WaitedUntil_example =
    das_delay_ms-WaitedUntil ⦃p = board⦄ 7 9 ticking 22 20 (late 0xffff_fff0)
      (installed 0xffff_fff0) (omega arith) (omega arith)

das_time_deadline_reached_lem_example :
    (das_time_deadline_reached ⦃p = board⦄ 5 (late 0x1_0000_0004)).0
    ≡ ok (leb (0xffff_fff1 + 20) 0x1_0000_0005)
das_time_deadline_reached_lem_example =
    das_time_deadline_reached_lem ⦃p = board⦄ 7 9 ticking (late 0xffff_fff0) (late 0x1_0000_0004) 20
      5 (installed 0xffff_fff0) (installed 0x1_0000_0004) (omega arith) (omega arith) (omega arith)
      due

das_time_interval_elapsed_lem_example :
    (das_time_interval_elapsed ⦃p = board⦄ (u32 0xffff_fff0) 20 (late 0x1_0000_0004)).0
    ≡ ok (leb (0xffff_fff0 + 20) 0x1_0000_0005)
das_time_interval_elapsed_lem_example =
    das_time_interval_elapsed_lem ⦃p = board⦄ 7 9 ticking (late 0x1_0000_0004) 0xffff_fff0 20
      (installed 0x1_0000_0004) (omega arith) (omega arith) (omega arith)

das_uart_write_timeout-Answered_example :
    Answered ⦃p = board⦄ 7 9 ticking apart
      (das_uart_write_timeout ⦃p = board⦄ 30 3 0x2400_0000 4 20 fresh)
das_uart_write_timeout-Answered_example =
    das_uart_write_timeout-Answered ⦃p = board⦄ 7 9 ticking apart 30 3 0x2400_0000 4 20 fresh
      (installed 0) (omega arith) (omega arith)

das_uart_read_timeout-Answered_example :
    Answered ⦃p = board⦄ 7 9 ticking apart
      (das_uart_read_timeout ⦃p = board⦄ 30 3 0x2400_0000 4 20 fresh)
das_uart_read_timeout-Answered_example =
    das_uart_read_timeout-Answered ⦃p = board⦄ 7 9 ticking apart 30 3 0x2400_0000 4 20 fresh
      (installed 0) (omega arith) (omega arith)

-- The board with a transfer on stream 0 that never ends, under the token 8.
abbrev running : World board
running = record fresh {
  dma = record no_streams {
    g_dma_claimed = λ i. i == 0;
    g_dma_generation = λ i. 1;
    g_dma_configured = λ i. i == 0;
    g_dma_active = λ i. i == 0;
  };
}

running-Installed : Installed 7 9 running
running-Installed = record { source_set = refl; context_set = refl }

das_dma_wait_timeout-Returned_example :
    Returned ⦃p = board⦄
      (Still ⦃p = board⦄ 7 9 ticking apart)
      (das_dma_wait_timeout ⦃p = board⦄ 30 8 20 running)
das_dma_wait_timeout-Returned_example =
    das_dma_wait_timeout-Returned ⦃p = board⦄ 7 9 ticking apart 30 8 20 running running-Installed
      (omega arith) (omega arith)
