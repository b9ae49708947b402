-- ===== src/I2c/Transfer.antt =====
-- The transfers of src/device/stm32h755/i2c.c. `fuel` bounds the rounds of each wait loop.
use device_abstraction_stack.Base.{
  ℕ, zero, suc, ◌+◌, Bool, true, false, not, ◌&&◌, ◌||◌, bit_and, bit_or, ltb, ◌==◌, ◌!=◌,
  if◌then◌else◌, u8, ◌<<<◌,
}
use device_abstraction_stack.Api.I2c.{das_i2c_wait_forever}
use device_abstraction_stack.Machine.Reg.{Reg}
use device_abstraction_stack.Machine.Platform.{Platform}
use device_abstraction_stack.Machine.Monad.{
  M, invalid_argument, unsupported, return, fail_if, ◌>>=◌, ◌>>◌, read_reg, write_reg, do_hw,
  ask_hw,
}
use device_abstraction_stack.I2c.Setup.{resolve_i2c, address_valid, require_enabled}
use device_abstraction_stack.I2c.Wait.{
  I2cWait, prepare_wait, wait_for_set, wait_bus_idle, clear_status,
}

abbrev pub max_phase : ℕ
max_phase = 255

module _ ⦃p : Platform⦄ where
  unfoldable pub transfer_cr2 : ℕ → ℕ → Bool → Bool → ℕ
  transfer_cr2 address size read autoend =
      let i2c = p.cmsis.i2c in
      let base =
        bit_or
          (bit_or (bit_and (address <<< 1) i2c.cr2_sadd)
            (bit_and (size <<< i2c.cr2_nbytes_pos) i2c.cr2_nbytes))
          i2c.cr2_start in
      let directed = if read then bit_or base i2c.cr2_rd_wrn else base in
      if autoend then bit_or directed i2c.cr2_autoend else directed

  unfoldable pub finish_autoend : ℕ → I2cWait → M (Unit {0})
  finish_autoend fuel wait = do
    wait_for_set fuel p.cmsis.i2c.isr_stopf wait
    write_reg Reg.i2c_icr p.cmsis.i2c.icr_stopcf

  -- How a phase ends.
  unfoldable pub finish_phase : ℕ → Bool → I2cWait → M (Unit {0})
  finish_phase fuel autoend wait =
      if autoend then finish_autoend fuel wait else wait_for_set fuel p.cmsis.i2c.isr_tc wait

  -- The loops at `index`, with `left` bytes to go.
  unfoldable pub send_bytes : ℕ → ℕ → I2cWait → ℕ → ℕ → M (Unit {0})
  send_bytes zero fuel wait data_ index = return tt
  send_bytes (suc left) fuel wait data_ index = do
    wait_for_set fuel p.cmsis.i2c.isr_txis wait
    value ← ask_hw (p.load_byte (data_ + index))
    write_reg Reg.i2c_txdr (u8 value)
    send_bytes left fuel wait data_ (index + 1)

  unfoldable pub receive_bytes : ℕ → ℕ → I2cWait → ℕ → ℕ → M (Unit {0})
  receive_bytes zero fuel wait data_ index = return tt
  receive_bytes (suc left) fuel wait data_ index = do
    wait_for_set fuel p.cmsis.i2c.isr_rxne wait
    value ← read_reg Reg.i2c_rxdr
    do_hw (p.store_byte (data_ + index) (u8 value))
    receive_bytes left fuel wait data_ (index + 1)

  unfoldable pub write_phase : ℕ → ℕ → ℕ → ℕ → Bool → I2cWait → M (Unit {0})
  write_phase fuel address data_ size autoend wait = do
    clear_status
    write_reg Reg.i2c_cr2 (transfer_cr2 address size false autoend)
    send_bytes size fuel wait data_ 0
    finish_phase fuel autoend wait

  unfoldable pub read_phase : ℕ → ℕ → ℕ → ℕ → Bool → I2cWait → M (Unit {0})
  read_phase fuel address data_ size autoend wait = do
    clear_status
    write_reg Reg.i2c_cr2 (transfer_cr2 address size true autoend)
    receive_bytes size fuel wait data_ 0
    finish_phase fuel autoend wait

  -- `prepare_wait`, `wait_bus_idle`, and the phases under that wait.
  unfoldable pub on_idle_bus : ℕ → ℕ → (I2cWait → M (Unit {0})) → M (Unit {0})
  on_idle_bus fuel timeout_ms phases = do
    wait ← prepare_wait timeout_ms
    wait_bus_idle fuel wait
    phases wait

  unfoldable pub probe_phase : ℕ → ℕ → I2cWait → M (Unit {0})
  probe_phase fuel address wait = do
    clear_status
    write_reg Reg.i2c_cr2 (transfer_cr2 address 0 false true)
    finish_autoend fuel wait

  unfoldable pub das_i2c_probe_timeout : ℕ → ℕ → ℕ → ℕ → M (Unit {0})
  das_i2c_probe_timeout fuel i2c address timeout_ms = do
    fail_if (not (resolve_i2c i2c) || not (address_valid address)) invalid_argument
    require_enabled
    on_idle_bus fuel timeout_ms (probe_phase fuel address)

  unfoldable pub das_i2c_probe : ℕ → ℕ → ℕ → M (Unit {0})
  das_i2c_probe fuel i2c address = das_i2c_probe_timeout fuel i2c address das_i2c_wait_forever

  unfoldable pub das_i2c_write_timeout : ℕ → ℕ → ℕ → ℕ → ℕ → ℕ → M (Unit {0})
  das_i2c_write_timeout fuel i2c address data_ size timeout_ms = do
    fail_if (not (resolve_i2c i2c) || not (address_valid address) || size != 0 && data_ == 0)
        invalid_argument
    fail_if (ltb max_phase size) unsupported
    require_enabled
    if size == 0
        then das_i2c_probe_timeout fuel i2c address timeout_ms
        else on_idle_bus fuel timeout_ms (write_phase fuel address data_ size true)

  unfoldable pub das_i2c_write : ℕ → ℕ → ℕ → ℕ → ℕ → M (Unit {0})
  das_i2c_write fuel i2c address data_ size =
      das_i2c_write_timeout fuel i2c address data_ size das_i2c_wait_forever

  unfoldable pub das_i2c_read_timeout : ℕ → ℕ → ℕ → ℕ → ℕ → ℕ → M (Unit {0})
  das_i2c_read_timeout fuel i2c address data_ size timeout_ms = do
    fail_if (not (resolve_i2c i2c) || not (address_valid address) || size != 0 && data_ == 0)
        invalid_argument
    if size == 0 then return tt else (do
      fail_if (ltb max_phase size) unsupported
      require_enabled
      on_idle_bus fuel timeout_ms (read_phase fuel address data_ size true))

  unfoldable pub das_i2c_read : ℕ → ℕ → ℕ → ℕ → ℕ → M (Unit {0})
  das_i2c_read fuel i2c address data_ size =
      das_i2c_read_timeout fuel i2c address data_ size das_i2c_wait_forever

  -- A write phase without STOP, and a read phase after a repeated START.
  unfoldable pub both_phases : ℕ → ℕ → ℕ → ℕ → ℕ → ℕ → I2cWait → M (Unit {0})
  both_phases fuel address write_data write_size read_data read_size wait = do
    write_phase fuel address write_data write_size false wait
    read_phase fuel address read_data read_size true wait

  unfoldable pub das_i2c_write_read_timeout : ℕ → ℕ → ℕ → ℕ → ℕ → ℕ → ℕ → ℕ → M (Unit {0})
  das_i2c_write_read_timeout fuel i2c address write_data write_size read_data read_size timeout_ms =
      do
        fail_if
            (not (resolve_i2c i2c)
              || not (address_valid address)
              || write_size != 0 && write_data == 0
              || read_size != 0 && read_data == 0)
            invalid_argument
        fail_if (ltb max_phase write_size || ltb max_phase read_size) unsupported
        if write_size == 0
            then das_i2c_read_timeout fuel i2c address read_data read_size timeout_ms
            else if read_size == 0
            then das_i2c_write_timeout fuel i2c address write_data write_size timeout_ms
            else (do
              require_enabled
              on_idle_bus fuel timeout_ms
                  (both_phases fuel address write_data write_size read_data read_size))

  unfoldable pub das_i2c_write_read : ℕ → ℕ → ℕ → ℕ → ℕ → ℕ → ℕ → M (Unit {0})
  das_i2c_write_read fuel i2c address write_data write_size read_data read_size =
      das_i2c_write_read_timeout fuel i2c address write_data write_size read_data read_size
        das_i2c_wait_forever
