-- ===== src/Machine/Monad.antt =====
-- The monad of the driver calls. A call returns `DAS_OK` with what it hands out, or one of the
-- errors of `das_result_t`; `spinning` stands for a call that is still in an unbounded wait loop
-- when the fuel of the model is used up.
use device_abstraction_stack.Base.{ℕ, Bool, Option, none, some, if◌then◌else◌}
use device_abstraction_stack.Machine.Reg.{Reg, Barrier}
use device_abstraction_stack.Machine.Platform.{Platform}
use device_abstraction_stack.Machine.World.{World, DmaVars, TimeVars, EthVars}

-- The failures of `das_result_t`.
pub data Error : Type 0 where
  invalid_argument unsupported timeout not_ready io : Error

pub data Outcome {ℓ} (A : Type ℓ) : Type ℓ where
  ok : A → Outcome A
  err : Error → Outcome A
  spinning : Outcome A

module _ ⦃p : Platform⦄ where
  abbrev pub M : Type 0 → Type 0
  M A = World p → Outcome A × World p

  abbrev pub return : {A : Type 0} → A → M A
  return a w = (ok a, w)

  abbrev pub fail : {A : Type 0} → Error → M A
  fail e w = (err e, w)

  -- A computation that touches neither the hardware nor a variable.
  abbrev pub lift : {A : Type 0} → Outcome A → M A
  lift r w = (r, w)

  abbrev pub spin : {A : Type 0} → M A
  spin w = (spinning, w)

  -- What is done with the result of a call.
  abbrev pub and_then : {A B : Type 0} → Outcome A × World p → (A → M B) → Outcome B × World p
  and_then (ok a, w) f = f a w
  and_then (err e, w) f = (err e, w)
  and_then (spinning, w) f = (spinning, w)

  abbrev pub discard : {A : Type 0} → Outcome A × World p → Outcome (Unit {0}) × World p
  discard (ok a, w) = (ok tt, w)
  discard (err e, w) = (ok tt, w)
  discard (spinning, w) = (spinning, w)

  infixl 5 ◌>>=◌ ◌>>◌
  abbrev pub ◌>>=◌ : {A B : Type 0} → M A → (A → M B) → M B
  ◌>>=◌ m f w = and_then (m w) f

  abbrev pub ◌>>◌ : {B : Type 0} → M (Unit {0}) → M B → M B
  m >> k = m >>= λ _. k

  -- `if (test) return error;`
  abbrev pub fail_if : Bool → Error → M (Unit {0})
  fail_if b e = if b then fail e else return tt

  -- `(void)call();`
  abbrev pub ignore : {A : Type 0} → M A → M (Unit {0})
  ignore m w = discard (m w)

  -- What is done when a call has failed, before its error is passed on.
  abbrev pub recover : {A : Type 0} → Outcome A × World p → M (Unit {0}) → Outcome A × World p
  recover (ok a, w) cleanup = (ok a, w)
  recover (err e, w) cleanup = and_then (cleanup w) (λ _. fail e)
  recover (spinning, w) cleanup = (spinning, w)

  abbrev pub or_cleanup : {A : Type 0} → M A → M (Unit {0}) → M A
  or_cleanup m cleanup w = recover (m w) cleanup

  -- The result of a call that may fail, for a caller that goes on in either case.
  abbrev pub attempted : {A : Type 0} → Outcome A × World p → Outcome (Option A) × World p
  attempted (ok a, w) = (ok (some a), w)
  attempted (err e, w) = (ok none, w)
  attempted (spinning, w) = (spinning, w)

  abbrev pub attempt : {A : Type 0} → M A → M (Option A)
  attempt m w = attempted (m w)

  -- `if (result != DAS_OK) return handler(result);`
  abbrev pub handled : {A : Type 0} → Outcome A × World p → (Error → M A) → Outcome A × World p
  handled (ok a, w) handler = (ok a, w)
  handled (err e, w) handler = handler e w
  handled (spinning, w) handler = (spinning, w)

  abbrev pub or_handle : {A : Type 0} → M A → (Error → M A) → M A
  or_handle m handler w = handled (m w) handler

  abbrev pub get_world : M (World p)
  get_world w = (ok w, w)

  abbrev pub read_reg : Reg → M ℕ
  read_reg r w = let (v, s) = p.read r w.hw in (ok v, record w { hw = s })

  abbrev pub write_reg : Reg → ℕ → M (Unit {0})
  write_reg r v w = (ok tt, record w { hw = p.write r v w.hw })

  abbrev pub barrier : Barrier → M (Unit {0})
  barrier b w = (ok tt, record w { hw = p.barrier b w.hw })

  -- `reg = f(reg)`: one read and one write.
  abbrev pub modify_reg : Reg → (ℕ → ℕ) → M (Unit {0})
  modify_reg r f = do v ← read_reg r; write_reg r (f v)

  -- A function of CMSIS that returns nothing, or a value.
  abbrev pub do_hw : (p.State → p.State) → M (Unit {0})
  do_hw f w = (ok tt, record w { hw = f w.hw })

  abbrev pub ask_hw : {A : Type 0} → (p.State → A × p.State) → M A
  ask_hw f w = let (v, s) = f w.hw in (ok v, record w { hw = s })

  abbrev pub set_dma : DmaVars → M (Unit {0})
  set_dma d w = (ok tt, record w { dma = d })

  abbrev pub set_eth : EthVars → M (Unit {0})
  set_eth e w = (ok tt, record w { eth = e })

  abbrev pub set_time : TimeVars → M (Unit {0})
  set_time t w = (ok tt, record w { time = t })
