-- ===== src/Clock/Dividers.antt =====
-- The divider fields of the RCC, read and written.
use device_abstraction_stack.Base.{ℕ, ◌+◌, ◌<<<◌, Option, none, some, bit_and, ◌==◌, if◌then◌else◌}

unfoldable pub core_ahb_divider_from_bits : ℕ → ℕ
core_ahb_divider_from_bits bits =
    let field = bit_and bits 0xf in
    if bit_and bits 0x8 == 0
    then 1
    else if field == 8
    then 2
    else if field == 9
    then 4
    else if field == 10
    then 8
    else if field == 11
    then 16
    else if field == 12
    then 64
    else if field == 13
    then 128
    else if field == 14
    then 256
    else 512

unfoldable pub apb_divider_from_bits : ℕ → ℕ
apb_divider_from_bits bits = if bit_and bits 0x4 == 0 then 1 else 1 <<< (bit_and bits 0x3 + 1)

-- The output pointer is never null at the calls; `none` is `false`.
unfoldable pub apb_divider_bits : ℕ → Option ℕ
apb_divider_bits divider =
    if divider == 1
    then some 0
    else if divider == 2
    then some 4
    else if divider == 4
    then some 5
    else if divider == 8
    then some 6
    else if divider == 16
    then some 7
    else none

unfoldable pub core_ahb_divider_bits : ℕ → Option ℕ
core_ahb_divider_bits divider =
    if divider == 1
    then some 0
    else if divider == 2
    then some 8
    else if divider == 4
    then some 9
    else if divider == 8
    then some 10
    else if divider == 16
    then some 11
    else if divider == 64
    then some 12
    else if divider == 128
    then some 13
    else if divider == 256
    then some 14
    else if divider == 512
    then some 15
    else none
