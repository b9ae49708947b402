-- ===== src/Eth/Receive.antt =====
-- The frames that `das_eth_receive` hands out.
use device_abstraction_stack.Base.{
  ℕ, ◌≤◌, ◌≡◌, sym, ◌∙◌, ◌⊎◌, inl, inr, refl, arith, Bool, not, ◌||◌, ◌==◌, bit_and, has_bits, ltb,
  Bool-cases,
}
use device_abstraction_stack.Api.Eth.{das_eth_max_frame_size}
use device_abstraction_stack.Machine.Reg.{Reg}
use device_abstraction_stack.Machine.Platform.{Platform}
use device_abstraction_stack.Machine.World.{World}
use device_abstraction_stack.Machine.Monad.{Outcome, ok, invalid_argument, unsupported, fail_if}
use device_abstraction_stack.Machine.Success.{Succeeds, and_then-Succeeds}
use device_abstraction_stack.Cache.{das_cache_data_invalidate}
use device_abstraction_stack.Eth.Handle.{das_eth_is_valid}
use device_abstraction_stack.Eth.Ring.{
  desc_own, rx_desc_address, rx_buffer_address, byte_copy, cache_invalidate_descriptor,
}
use device_abstraction_stack.Eth.Driver.{
  min_frame_size, desc_length, frame_valid, require_initialized, check_bus_error, release_rx,
  drop_frame, take_frame, receive_frame, receive_checked, das_eth_receive,
}

ok-injective : {A : Type 0} {a b : A} → ok a ≡ ok b → a ≡ b
ok-injective e = ground arith

module _ ⦃p : Platform⦄ where
  -- No frame, or a frame of an admissible length that fits.
  abbrev pub Received : ℕ → Outcome ℕ × World p → Type 0
  Received capacity r =
      (n : ℕ) × (r.0 ≡ ok n)
      × ((n ≡ 0) ⊎ ((min_frame_size ≤ n) × (n ≤ das_eth_max_frame_size) × (n ≤ capacity)))

  take_frame-Received :
      (index buffer capacity length : ℕ) (w : World p)
      → min_frame_size ≤ length
      → length ≤ das_eth_max_frame_size
      → length ≤ capacity
      → Succeeds (Received capacity) (take_frame index buffer length w)
  unfolding take_frame
  take_frame-Received index buffer capacity length w a b c =
      and_then-Succeeds (Received capacity)
        (das_cache_data_invalidate (rx_buffer_address index) length w) _
        λ x w1 e1.
          and_then-Succeeds (Received capacity)
            (byte_copy buffer (rx_buffer_address index) length w1) _
            λ y w2 e2.
              and_then-Succeeds (Received capacity) (release_rx index w2) _
                λ z w3 e3 n h. (length, refl, inr (a, b, c))

  drop_frame-Received :
      (index capacity : ℕ) (valid : Bool) (w : World p)
      → Succeeds (Received capacity) (drop_frame index valid w)
  unfolding drop_frame
  drop_frame-Received index capacity valid w =
      and_then-Succeeds (Received capacity) (release_rx index w) _
        λ x w1 e1 n h. absurd (ground arith)

  receive_frame-Received :
      (index buffer capacity status : ℕ) (w : World p)
      → Succeeds (Received capacity) (receive_frame index buffer capacity status w)
  unfolding receive_frame frame_valid
  receive_frame-Received index buffer capacity status w =
      let length = bit_and status desc_length in
      elim (Bool-cases (not (frame_valid status) || ltb capacity length)) [
        | inl dropped ↦ rw dropped (drop_frame-Received index capacity (frame_valid status) w)
        | inr kept ↦ rw kept (
            take_frame-Received index buffer capacity length w (ground arith) (ground arith)
              (ground arith))
      ]

  receive_checked-Received :
      (buffer capacity : ℕ) (w : World p)
      → Succeeds (Received capacity) (receive_checked buffer capacity w)
  unfolding receive_checked
  receive_checked-Received buffer capacity w =
      and_then-Succeeds (Received capacity) (require_initialized w) _ λ a w1 e1.
        and_then-Succeeds (Received capacity) (check_bus_error w1) _ λ b w2 e2.
          and_then-Succeeds (Received capacity)
            (cache_invalidate_descriptor (rx_desc_address w2.eth.g_rx_index) w2) _
            λ c w3 e3.
              let index = w2.eth.g_rx_index in
              let (desc3, s) = p.read (Reg.eth_rx_desc index 3) w3.hw in
              let (status, s2) = p.read (Reg.eth_rx_desc index 3) s in
              elim (Bool-cases (has_bits desc3 desc_own)) [
                | inl owned ↦ rw owned λ n h. (0, refl, inl refl)
                | inr given ↦
                    rw given
                      (receive_frame-Received index buffer capacity status (record w3 { hw = s2 }))
              ]

  -- When `das_eth_receive` returns `DAS_OK`, it hands out no frame, or a frame of 14 to 1518 bytes that
  -- fits into the capacity of the buffer.
  pub das_eth_receive-Received :
      (eth buffer capacity n : ℕ) (received : Bool) (w : World p)
      → (das_eth_receive eth buffer capacity received w).0 ≡ ok n
      → (n ≡ 0) ⊎ ((min_frame_size ≤ n) × (n ≤ das_eth_max_frame_size) × (n ≤ capacity))
  unfolding das_eth_receive
  das_eth_receive-Received eth buffer capacity n received w h =
      let invalid = not (das_eth_is_valid eth) || buffer == 0 || capacity == 0 || not received in
      let (m, e, bound) =
        and_then-Succeeds (Received capacity) (fail_if invalid invalid_argument w) _
          (λ a w1 e1.
            and_then-Succeeds (Received capacity)
              (fail_if (not p.cmsis.core.core_cm7) unsupported w1) _
              λ b w2 e2. receive_checked-Received buffer capacity w2)
          n h in
      let same : n ≡ m = ok-injective (sym h ∙ e) in rw same bound
