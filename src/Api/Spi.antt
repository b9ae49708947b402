-- ===== src/Api/Spi.antt =====
-- include/das/spi.h
use device_abstraction_stack.Base.{ℕ, uint32_max}

abbrev pub das_spi_invalid : ℕ
das_spi_invalid = uint32_max

abbrev pub das_spi_wait_forever : ℕ
das_spi_wait_forever = uint32_max

abbrev pub das_spi_mode_1 : ℕ
das_spi_mode_1 = 1

abbrev pub das_spi_mode_2 : ℕ
das_spi_mode_2 = 2

abbrev pub das_spi_mode_3 : ℕ
das_spi_mode_3 = 3

abbrev pub das_spi_msb_first : ℕ
das_spi_msb_first = 0

abbrev pub das_spi_lsb_first : ℕ
das_spi_lsb_first = 1

-- `das_spi_config_t`
pub record DasSpiConfig : Type 0 where
  pub frequency_hz : ℕ
  pub mode : ℕ
  pub bit_order : ℕ
