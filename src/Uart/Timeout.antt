-- ===== src/Uart/Timeout.antt =====
-- The waits of UART reads and writes, within their limit.
use device_abstraction_stack.Base.{
  ℕ, zero, suc, ◌+◌, ◌*◌, ◌≤◌, ◌<◌, ◌≡◌, ◌∙◌, inl, inr, arith, refl, leb, Bool, true, false, ◌&&◌,
  u32, u8, Bool-cases, bit_and, has_bits,
}
use device_abstraction_stack.Api.Time.{das_time_max_interval_ms}
use device_abstraction_stack.Machine.Reg.{Reg}
use device_abstraction_stack.Machine.Platform.{Platform}
use device_abstraction_stack.Machine.World.{World}
use device_abstraction_stack.Machine.Monad.{io, timeout}
use device_abstraction_stack.Machine.Success.{Returned, and_then-Returned}
use device_abstraction_stack.Time.Clock.{Ticking}
use device_abstraction_stack.Time.Waiting.{Apart, polls_left, asked, elapsed-Waiting, asked-Waiting}
use device_abstraction_stack.Time.Limit.{Within, after, enough}
use device_abstraction_stack.Uart.Wait.{UartWait, wait_for_flag, wait_expired, error_flags}
use device_abstraction_stack.Uart.Polled.{write_bytes, read_bytes}

-- A finite wait, as `prepare_wait` makes it.
abbrev pub finite_wait : ℕ → ℕ → UartWait
finite_wait start limit = record { finite = true; start_ms = u32 start; timeout_ms = limit }

module _ ⦃p : Platform⦄ (source context : ℕ) (t : Ticking p source context)
    (apart : Apart p source context t) where
  pub wait_for_flag-Returned :
      (fuel uart flag : ℕ) (check_rx_errors : Bool) (start limit : ℕ) (w : World p)
      → limit ≤ das_time_max_interval_ms
      → Within source context t apart start limit w
      → polls_left source context t start limit w < fuel
      → Returned
          (Within source context t apart start limit)
          (wait_for_flag fuel uart flag check_rx_errors (finite_wait start limit) w)
  unfolding wait_for_flag wait_expired
  wait_for_flag-Returned zero uart flag check_rx_errors start limit w h v f = absurd (omega arith)
  wait_for_flag-Returned (suc fuel) uart flag check_rx_errors start limit w h v f =
      let status = (p.read (Reg.usart_isr uart) w.hw).0 in
      let s = (p.read (Reg.usart_isr uart) w.hw).1 in
      let w1 : World p = record w { hw = s } in
      let (same, calm) = apart.reads (Reg.usart_isr uart) w.hw in
      let v1 : Within source context t apart start limit w1 =
        after source context t apart s v same in
      let level : polls_left source context t start limit w1
          ≡ polls_left source context t start limit w =
        rw (same, calm) refl in
      elim (Bool-cases (check_rx_errors && has_bits status error_flags)) [
        | inl faulty ↦ rw faulty (inr (io, refl))
        | inr clean ↦ rw clean (elim (Bool-cases (has_bits status flag)) [
          | inl set ↦ rw set (inl (refl, v1))
          | inr clear ↦
              rw (clear, elapsed-Waiting source context t start limit w1 v1 h)
                (elim (Bool-cases (leb (start + limit) (t.now (asked source context t w1).hw))) [
                  | inl expired ↦ rw expired (inr (timeout, refl))
                  | inr early ↦
                      let (v2, fewer) = asked-Waiting source context t start limit w1 v1 early in
                      rw early (
                        wait_for_flag-Returned fuel uart flag check_rx_errors start limit
                          (asked source context t w1) h v2 (omega (arith, fewer, level)))
                ])
        ])
      ]

  pub write_bytes-Returned :
      (left fuel uart data_mask start limit bytes index : ℕ) (w : World p)
      → limit ≤ das_time_max_interval_ms
      → (limit + 1) * (t.patience + 1) ≤ fuel
      → Within source context t apart start limit w
      → Returned
          (Within source context t apart start limit)
          (write_bytes left fuel uart data_mask (finite_wait start limit) bytes index w)
  unfolding write_bytes
  write_bytes-Returned zero fuel uart data_mask start limit bytes index w h f v = inl (refl, v)
  write_bytes-Returned (suc left) fuel uart data_mask start limit bytes index w h f v =
      and_then-Returned (Within source context t apart start limit)
        (Within source context t apart start limit)
        (wait_for_flag fuel uart p.cmsis.usart.isr_txe_txfnf false (finite_wait start limit) w) _
        (wait_for_flag-Returned fuel uart p.cmsis.usart.isr_txe_txfnf false start limit w h v
          (enough source context t apart fuel start limit w f v))
        (λ u d.
          let (value, s) = p.load_byte (bytes + index) u.hw in
          let sent = p.write (Reg.usart_tdr uart) (bit_and (u8 value) data_mask) s in
          write_bytes-Returned left fuel uart data_mask start limit bytes (index + 1)
            (record u { hw = sent }) h f
            (after source context t apart sent d (
              (apart.writes (Reg.usart_tdr uart) (bit_and (u8 value) data_mask) s).0
              ∙ (apart.loads (bytes + index) u.hw).0)))

  pub read_bytes-Returned :
      (left fuel uart data_mask start limit bytes index : ℕ) (w : World p)
      → limit ≤ das_time_max_interval_ms
      → (limit + 1) * (t.patience + 1) ≤ fuel
      → Within source context t apart start limit w
      → Returned
          (Within source context t apart start limit)
          (read_bytes left fuel uart data_mask (finite_wait start limit) bytes index w)
  unfolding read_bytes
  read_bytes-Returned zero fuel uart data_mask start limit bytes index w h f v = inl (refl, v)
  read_bytes-Returned (suc left) fuel uart data_mask start limit bytes index w h f v =
      and_then-Returned (Within source context t apart start limit)
        (Within source context t apart start limit)
        (wait_for_flag fuel uart p.cmsis.usart.isr_rxne_rxfne true (finite_wait start limit) w) _
        (wait_for_flag-Returned fuel uart p.cmsis.usart.isr_rxne_rxfne true start limit w h v
          (enough source context t apart fuel start limit w f v))
        (λ u d.
          let (value, s) = p.read (Reg.usart_rdr uart) u.hw in
          let stored = p.store_byte (bytes + index) (u8 (bit_and value data_mask)) s in
          read_bytes-Returned left fuel uart data_mask start limit bytes (index + 1)
            (record u { hw = stored }) h f
            (after source context t apart stored d (
              (apart.stores (bytes + index) (u8 (bit_and value data_mask)) s).0
              ∙ (apart.reads (Reg.usart_rdr uart) u.hw).0)))
