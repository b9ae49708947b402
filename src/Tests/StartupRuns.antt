-- ===== src/Tests/StartupRuns.antt =====
-- A program of two words of data and three words of bss.
use device_abstraction_stack.Base.{ℕ, ◌+◌, ◌*◌, ◌<◌, ◌≡◌, inl, refl, arith, some}
use device_abstraction_stack.Startup.{Memory, Linked, initialize_c_runtime}
use device_abstraction_stack.Startup.Sections.{Outside, initialize_c_runtime-Initialized}

abbrev program : Linked
program = record {
  data_load = 0x0800_1000;
  data_start = 0x2400_0000;
  data_end = 0x2400_0008;
  bss_start = 0x2400_0008;
  bss_end = 0x2400_0014;
}

abbrev power_on : Memory
power_on a = a + 7

initialize_c_runtime-Initialized_example :
    (m' : Memory) × (initialize_c_runtime 4 program power_on ≡ some m')
    × ((i : ℕ) → i < 2 → m' (0x2400_0000 + 4 * i) ≡ power_on (0x0800_1000 + 4 * i))
    × ((i : ℕ) → i < 3 → m' (0x2400_0008 + 4 * i) ≡ 0)
    × ((a : ℕ)
        → Outside 0x2400_0000 0x2400_0008 a
        → Outside 0x2400_0008 0x2400_0014 a
        → m' a ≡ power_on a)
initialize_c_runtime-Initialized_example =
    initialize_c_runtime-Initialized 2 3 4 program power_on refl refl (inl (omega arith))
      (inl (omega arith)) (omega arith) (omega arith)
