-- ===== src/Spi/Prescaler.antt =====
-- The choice of the clock divider in src/device/stm32h755/spi.c. The output pointers are addresses
-- of locals and never null.
use device_abstraction_stack.Base.{ℕ, zero, suc, ◌+◌, ◌/◌, ◌||◌, leb, ◌==◌, if◌then◌else◌, ◌<<<◌}
use device_abstraction_stack.Machine.Monad.{Outcome, ok, err, invalid_argument, unsupported}

-- `UINT32_C(2) << exponent`
abbrev pub divider : ℕ → ℕ
divider exponent = 2 <<< exponent

-- The loop of `select_prescaler` at `exponent`, with `left` exponents to try.
unfoldable pub prescaler_from : ℕ → ℕ → ℕ → ℕ → Outcome (ℕ × ℕ)
prescaler_from zero exponent kernel_hz requested_hz = err unsupported
prescaler_from (suc left) exponent kernel_hz requested_hz =
    let rest = prescaler_from left (exponent + 1) kernel_hz requested_hz in
    let rate = kernel_hz / divider exponent in
    if leb rate requested_hz
    then (if rate == 0 then err unsupported else ok (exponent, rate))
    else rest

-- The value of the MBR field and the effective rate.
unfoldable pub select_prescaler : ℕ → ℕ → Outcome (ℕ × ℕ)
select_prescaler kernel_hz requested_hz =
    if kernel_hz == 0 || requested_hz == 0
    then err invalid_argument
    else prescaler_from 8 0 kernel_hz requested_hz
