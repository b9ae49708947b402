-- ===== src/Machine/Success.antt =====
-- Chains of calls that succeed.
use device_abstraction_stack.Base.{◌⊎◌, inl, inr, ◌≡◌, refl, arith}
use device_abstraction_stack.Machine.Platform.{Platform}
use device_abstraction_stack.Machine.World.{World}
use device_abstraction_stack.Machine.Monad.{M, Error, Outcome, ok, err, spinning, and_then}

module _ ⦃p : Platform⦄ {B : Type 0} (Q : Outcome B × World p → Type 0) where
  -- `Q` holds of a run that has returned `DAS_OK`.
  abbrev pub Succeeds : Outcome B × World p → Type 0
  Succeeds r = (b : B) → r.0 ≡ ok b → Q r

  -- What holds of the continuation holds of the chain: a chain that fails earlier has no result.
  pub and_then-Succeeds :
      {A : Type 0} (r : Outcome A × World p) (k : A → M B)
      → ((a : A) (w : World p) → r ≡ (ok a, w) → Succeeds (k a w))
      → Succeeds (and_then r k)
  and_then-Succeeds (ok a, w) k h b e = h a w refl b e
  and_then-Succeeds (err x, w) k h b e = absurd (ground arith)
  and_then-Succeeds (spinning, w) k h b e = absurd (ground arith)

module _ ⦃p : Platform⦄ where
  -- The call has returned: with `DAS_OK` and a world in which `P` holds, or with an error.
  abbrev pub Returned : (World p → Type 0) → Outcome (Unit {0}) × World p → Type 0
  Returned P r = ((r.0 ≡ ok tt) × P r.1) ⊎ ((e : Error) × (r.0 ≡ err e))

  -- A chain of two calls that return.
  pub and_then-Returned :
      (P Q : World p → Type 0) (r : Outcome (Unit {0}) × World p) (rest : M (Unit {0}))
      → Returned P r
      → ((w : World p) → P w → Returned Q (rest w))
      → Returned Q (and_then r (λ u. rest))
  and_then-Returned P Q (ok u, w) rest (inl (e, d)) h = h w d
  and_then-Returned P Q (ok u, w) rest (inr (x, e)) h = absurd (ground arith)
  and_then-Returned P Q (err x, w) rest r h = inr (x, refl)
  and_then-Returned P Q (spinning, w) rest (inl (e, d)) h = absurd (ground arith)
  and_then-Returned P Q (spinning, w) rest (inr (x, e)) h = absurd (ground arith)
