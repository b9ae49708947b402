-- ===== src/Api/Time.antt =====
-- include/das/time.h
use device_abstraction_stack.Base.{ℕ}

abbrev pub das_time_max_interval_ms : ℕ
das_time_max_interval_ms = 0x7fff_ffff
