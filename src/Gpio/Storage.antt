-- ===== src/Gpio/Storage.antt =====
-- Ports as storage: what the reference manual says of the settings of a GPIO port.
use device_abstraction_stack.Base.{ℕ, ◌≡◌, Bool, true, false, ◌&&◌, ◌==◌, has_bits, if◌then◌else◌}
use device_abstraction_stack.Machine.Reg.{Reg, Barrier}
use device_abstraction_stack.Machine.Platform.{Platform}

-- The registers of a port that hold settings.
pub data Setting : Type 0 where
  moder otyper ospeedr pupdr : Setting
  afr : ℕ → Setting

abbrev pub reg_of : Setting → ℕ → Reg
reg_of Setting.moder port = Reg.gpio_moder port
reg_of Setting.otyper port = Reg.gpio_otyper port
reg_of Setting.ospeedr port = Reg.gpio_ospeedr port
reg_of Setting.pupdr port = Reg.gpio_pupdr port
reg_of (Setting.afr i) port = Reg.gpio_afr port i

abbrev pub same_setting : Setting → Setting → Bool
same_setting Setting.moder Setting.moder = true
same_setting Setting.otyper Setting.otyper = true
same_setting Setting.ospeedr Setting.ospeedr = true
same_setting Setting.pupdr Setting.pupdr = true
same_setting (Setting.afr i) (Setting.afr j) = i == j
same_setting q r = false

-- A port whose clock is enabled stores what is written to its settings, and a port whose clock is not
-- enabled ignores it. Nothing else changes a setting.
pub record Storage (p : Platform) : Type 0 where
  pub content : Setting → ℕ → p.State → ℕ
  pub clocked : ℕ → p.State → Bool
  pub value : (q : Setting) (n : ℕ) (s : p.State) → (p.read (reg_of q n) s).0 ≡ content q n s
  pub reads :
      (q : Setting) (n : ℕ) (r : Reg) (s : p.State)
      → (content q n (p.read r s).1 ≡ content q n s) × (clocked n (p.read r s).1 ≡ clocked n s)
  pub writes :
      (q : Setting) (n : ℕ) (r : Setting) (m v : ℕ) (s : p.State)
      → (content q n (p.write (reg_of r m) v s)
          ≡ (if same_setting q r && n == m && clocked m s then v else content q n s))
        × (clocked n (p.write (reg_of r m) v s) ≡ clocked n s)
  pub latch_writes :
      (q : Setting) (n m v : ℕ) (s : p.State)
      → (content q n (p.write (Reg.gpio_bsrr m) v s) ≡ content q n s)
        × (clocked n (p.write (Reg.gpio_bsrr m) v s) ≡ clocked n s)
  pub clock_writes :
      (q : Setting) (n v : ℕ) (s : p.State)
      → (content q n (p.write Reg.rcc_ahb4enr v s) ≡ content q n s)
        × (clocked n (p.write Reg.rcc_ahb4enr v s) ≡ has_bits v (p.cmsis.rcc.gpio_en n))
  pub barriers :
      (q : Setting) (n : ℕ) (b : Barrier) (s : p.State)
      → (content q n (p.barrier b s) ≡ content q n s) × (clocked n (p.barrier b s) ≡ clocked n s)
