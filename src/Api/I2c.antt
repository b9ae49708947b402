-- ===== src/Api/I2c.antt =====
-- include/das/i2c.h
use device_abstraction_stack.Base.{ℕ, uint32_max}

abbrev pub das_i2c_invalid : ℕ
das_i2c_invalid = uint32_max

abbrev pub das_i2c_wait_forever : ℕ
das_i2c_wait_forever = uint32_max

-- `das_i2c_config_t`
pub record DasI2cConfig : Type 0 where
  pub frequency_hz : ℕ
