-- ===== src/Tests/Port.antt =====
-- A board whose GPIO ports store their settings while their clock is enabled.
use device_abstraction_stack.Base.{
  ℕ, ◌≡◌, refl, arith, Bool, ◌&&◌, ◌==◌, has_bits, if◌then◌else◌, Bool-cases, inl, inr, none,
}
use device_abstraction_stack.Machine.Reg.{Reg}
use device_abstraction_stack.Machine.Platform.{Platform}
use device_abstraction_stack.Machine.World.{World}
use device_abstraction_stack.Gpio.Storage.{Setting, reg_of, same_setting, Storage}
use device_abstraction_stack.Tests.Bits.{stm32h755}
use device_abstraction_stack.Tests.Board.{no_streams, no_eth, sram}

-- The settings of the ports, and AHB4ENR.
pub record Cells : Type 0 where
  pub cells : Setting → ℕ → ℕ
  pub ahb4enr : ℕ

abbrev running : ℕ → Cells → Bool
running m s = has_bits s.ahb4enr (stm32h755.rcc.gpio_en m)

abbrev store : Setting → ℕ → ℕ → Cells → Cells
store r m v s =
    if running m s
    then record s { cells = λ q n. if same_setting q r && n == m then v else s.cells q n }
    else s

abbrev look : Reg → Cells → ℕ
look (Reg.gpio_moder n) s = s.cells Setting.moder n
look (Reg.gpio_otyper n) s = s.cells Setting.otyper n
look (Reg.gpio_ospeedr n) s = s.cells Setting.ospeedr n
look (Reg.gpio_pupdr n) s = s.cells Setting.pupdr n
look (Reg.gpio_afr n i) s = s.cells (Setting.afr i) n
look Reg.rcc_ahb4enr s = s.ahb4enr
look r s = 0

abbrev put : Reg → ℕ → Cells → Cells
put (Reg.gpio_moder n) v s = store Setting.moder n v s
put (Reg.gpio_otyper n) v s = store Setting.otyper n v s
put (Reg.gpio_ospeedr n) v s = store Setting.ospeedr n v s
put (Reg.gpio_pupdr n) v s = store Setting.pupdr n v s
put (Reg.gpio_afr n i) v s = store (Setting.afr i) n v s
put Reg.rcc_ahb4enr v s = record s { ahb4enr = v }
put r v s = s

abbrev pub ports : Platform
ports = record {
  State = Cells;
  read = λ r s. (look r s, s);
  write = put;
  load_byte = λ a s. (0, s);
  store_byte = λ a v s. s;
  barrier = λ b s. s;
  get_primask = λ s. (0, s);
  set_primask = λ v s. s;
  disable_irq = λ s. s;
  systick_config = λ ticks s. (0, s);
  nvic_enable = λ n s. s;
  nvic_disable = λ n s. s;
  nvic_get_enable = λ n s. (0, s);
  nvic_set_priority = λ n v s. s;
  nvic_get_priority = λ n s. (0, s);
  nvic_set_pending = λ n s. s;
  nvic_clear_pending = λ n s. s;
  nvic_get_pending = λ n s. (0, s);
  scb_enable_dcache = λ s. s;
  scb_disable_dcache = λ s. s;
  scb_clean_dcache = λ a n s. s;
  scb_invalidate_dcache = λ a n s. s;
  scb_clean_invalidate_dcache = λ a n s. s;
  call_source = λ f context s. (0, s);
  systick_taken = λ s. (0, s);
  eth_layout = sram;
  cmsis = stm32h755;
}

pub looked : (q : Setting) (n : ℕ) (s : Cells) → look (reg_of q n) s ≡ s.cells q n
looked Setting.moder n s = refl
looked Setting.otyper n s = refl
looked Setting.ospeedr n s = refl
looked Setting.pupdr n s = refl
looked (Setting.afr i) n s = refl

put-store : (r : Setting) (m v : ℕ) (s : Cells) → put (reg_of r m) v s ≡ store r m v s
put-store Setting.moder m v s = refl
put-store Setting.otyper m v s = refl
put-store Setting.ospeedr m v s = refl
put-store Setting.pupdr m v s = refl
put-store (Setting.afr i) m v s = refl

pub stored :
    (q : Setting) (n : ℕ) (r : Setting) (m v : ℕ) (s : Cells)
    → ((put (reg_of r m) v s).cells q n
        ≡ (if same_setting q r && n == m && running m s then v else s.cells q n))
      × (running n (put (reg_of r m) v s) ≡ running n s)
stored q n r m v s = rw (put-store r m v s) (elim (Bool-cases (running m s)) [
  | inl on ↦ rw on (ground arith, refl)
  | inr off ↦ rw off (ground arith, refl)
])

abbrev pub storage : Storage ports
storage = record {
  content = λ q n s. s.cells q n;
  clocked = running;
  value = looked;
  reads = λ q n r s. (refl, refl);
  writes = stored;
  latch_writes = λ q n m v s. (refl, refl);
  clock_writes = λ q n v s. (refl, refl);
  barriers = λ q n b s. (refl, refl);
}

-- Every setting is 0xffff, and no port has a clock.
abbrev pub unclocked : World ports
unclocked = record {
  hw = record { cells = λ q n. 0xffff; ahb4enr = 0 };
  time = record { g_time_source = none; g_time_source_context = 0; g_systick_ms = 0 };
  dma = no_streams;
  eth = no_eth;
}
