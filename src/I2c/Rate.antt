-- ===== src/I2c/Rate.antt =====
-- The timing that `calculate_timing` chooses, and the rate that `das_i2c_get_frequency` reads back.
use device_abstraction_stack.Base.{
  ℕ, zero, suc, ◌+◌, ◌-◌, ◌*◌, ◌/◌, ◌^◌, ◌≤◌, ◌<◌, ◌≡◌, ◌⊎◌, inl, inr, refl, arith, Option, none,
  some, false, Bool-cases, ltb, leb, ◌==◌, ◌!=◌, ◌&&◌, ◌||◌, u32, u64,
}
use device_abstraction_stack.Base.Rounding.{quotient_bounds, quotient_le, mul_mono}
use device_abstraction_stack.Machine.Monad.{Outcome, ok, err, unsupported}
use device_abstraction_stack.I2c.Timing.{
  Fields, ceil_div_u64, presc_from, scldel_ticks_of, sdadel_ticks_of, fields_from, calculate_fields,
}

-- `q` is `a / b`, rounded up.
abbrev pub Ceiling : ℕ → ℕ → ℕ → Type 0
Ceiling a b q = (a ≤ q * b) × (q * b < a + b)

ceil_div_u64-Ceiling : (a b : ℕ) → 0 < b → b < 2 ^ 32 → a < 2 ^ 32 → Ceiling a b (ceil_div_u64 a b)
unfolding ceil_div_u64
ceil_div_u64-Ceiling a b h k l =
    let exact : u64 (a + b + (2 ^ 64 - 1)) ≡ a + b - 1 = omega arith in
    let (lo, hi) = quotient_bounds (a + b - 1) b h in
    let small : (a + b - 1) / b < 2 ^ 32 =
      bounded (quotient_le (a + b - 1) b a h (omega (arith, mul_mono 1 b a h))) in
    let whole : u32 ((a + b - 1) / b) ≡ (a + b - 1) / b = omega arith in
    rw (exact, whole) (omega arith, omega arith)
  where
    bounded : {q : ℕ} → q ≤ a → q < 2 ^ 32
    bounded q = omega arith

-- What the search for a prescaler finds, if it finds one: the half period in ticks, rounded up.
abbrev Found : ℕ → ℕ → ℕ → ℕ → Option (ℕ × ℕ) → Type 0
Found left candidate kernel_hz bus_hz r =
    (r ≡ none)
    ⊎ ((c : ℕ) × (ticks : ℕ) × (r ≡ some (c, ticks))
        × (candidate ≤ c)
        × (c < candidate + left)
        × (2 ≤ ticks)
        × (ticks ≤ 256)
        × Ceiling kernel_hz (2 * bus_hz * c) ticks)

presc_from-Found :
    (left candidate kernel_hz bus_hz : ℕ)
    → 0 < candidate
    → candidate + left ≤ 17
    → 0 < bus_hz
    → bus_hz ≤ 400_000
    → kernel_hz < 2 ^ 32
    → Found left candidate kernel_hz bus_hz (presc_from left candidate kernel_hz bus_hz)
unfolding presc_from
presc_from-Found zero candidate kernel_hz bus_hz a b c d e = inl refl
presc_from-Found (suc left) candidate kernel_hz bus_hz a b c d e =
    let size : 2 * bus_hz * candidate ≤ 2 * 400_000 * 16 = grind arith in
    let some_size : 0 < 2 * bus_hz * candidate = grind arith in
    let exact : u64 (2 * bus_hz * candidate) ≡ 2 * bus_hz * candidate = omega arith in
    let ticks = ceil_div_u64 kernel_hz (2 * bus_hz * candidate) in
    rw exact (elim (Bool-cases (leb 2 ticks && leb ticks 256)) [
      | inl fits ↦ rw fits (
          inr (
            candidate,
            ticks,
            refl,
            omega arith,
            omega arith,
            ground arith,
            ground arith,
            ceil_div_u64-Ceiling kernel_hz (2 * bus_hz * candidate) some_size (omega arith) e,
          ))
      | inr fails ↦ rw fails (
          later (
            presc_from-Found left (candidate + 1) kernel_hz bus_hz (omega arith) (omega arith) c d
              e))
    ])
  where
    later :
        {r : Option (ℕ × ℕ)}
        → Found left (candidate + 1) kernel_hz bus_hz r
        → Found (suc left) candidate kernel_hz bus_hz r
    later (inl none_left) = inl none_left
    later (inr (x, ticks, same, lo, hi, least, most, near)) =
        inr (x, ticks, same, omega arith, omega arith, least, most, near)

-- The fields fit into their places in TIMINGR, and a whole period of the bus clock, in ticks of the
-- kernel clock, is not too short for the requested rate, and too long by less than the rounding of
-- the two halves.
pub record Fitting (kernel_hz bus_hz : ℕ) (f : Fields) : Type 0 where
  pub presc : f.presc < 2 ^ 4
  pub scldel : f.scldel < 2 ^ 4
  pub sdadel : f.sdadel < 2 ^ 4
  pub scl : f.scl < 2 ^ 8
  pub slow_enough : kernel_hz ≤ bus_hz * ((f.presc + 1) * (2 * (f.scl + 1)))
  pub fast_enough :
      bus_hz * ((f.presc + 1) * (2 * (f.scl + 1))) < kernel_hz + bus_hz * (2 * (f.presc + 1))

-- An unsupported rate, or fields that fit.
abbrev pub Fitted : ℕ → ℕ → Outcome Fields → Type 0
Fitted kernel_hz bus_hz r =
    (r ≡ err unsupported) ⊎ ((f : Fields) × (r ≡ ok f) × Fitting kernel_hz bus_hz f)

fields_from-Fitted :
    (kernel_hz bus_hz c ticks : ℕ)
    → 1 ≤ c
    → c < 17
    → 2 ≤ ticks
    → ticks ≤ 256
    → Ceiling kernel_hz (2 * bus_hz * c) ticks
    → Fitted kernel_hz bus_hz (fields_from kernel_hz bus_hz (some (c, ticks)))
unfolding fields_from
fields_from-Fitted kernel_hz bus_hz c ticks h k l m (near, tight) =
    let scldel = scldel_ticks_of kernel_hz bus_hz c in
    let sdadel = sdadel_ticks_of kernel_hz c in
    elim (Bool-cases (ltb 16 scldel || ltb 15 sdadel)) [
      | inl long ↦ rw long (inl refl)
      | inr short ↦
          let presc_whole : c - 1 + 1 ≡ c = omega arith in
          let scl_whole : ticks - 1 + 1 ≡ ticks = omega arith in
          rw short (
            inr (
              record { presc = c - 1; scldel = scldel - 1; sdadel = sdadel; scl = ticks - 1 },
              refl,
              record {
                presc = omega arith;
                scldel = ground arith;
                sdadel = ground arith;
                scl = omega arith;
                slow_enough = rw (presc_whole, scl_whole) (grind arith);
                fast_enough = rw (presc_whole, scl_whole) (grind arith);
              },
            ))
    ]

-- A rate that the driver offers.
abbrev pub Offered : ℕ → Type 0
Offered bus_hz = (bus_hz ≡ 100_000) ⊎ (bus_hz ≡ 400_000)

no_candidate : (a b : ℕ) → fields_from a b none ≡ err unsupported
unfolding fields_from
no_candidate a b = refl

pub calculate_fields-Fitted :
    (kernel_hz bus_hz : ℕ)
    → 0 < kernel_hz
    → kernel_hz < 2 ^ 32
    → Offered bus_hz
    → Fitted kernel_hz bus_hz (calculate_fields kernel_hz bus_hz)
unfolding calculate_fields
calculate_fields-Fitted kernel_hz bus_hz h k o =
    let valid : (kernel_hz == 0 || bus_hz != 100_000 && bus_hz != 400_000) ≡ false = ground arith in
    rw valid
      (elim (presc_from-Found 16 1 kernel_hz bus_hz (omega arith) (omega arith) (omega arith)
        (omega arith) k) [
          | inl lost ↦ rw lost (inl (no_candidate kernel_hz bus_hz))
          | inr (c, ticks, same, lo, hi, least, most, near) ↦
              rw same (fields_from-Fitted kernel_hz bus_hz c ticks lo hi least most near)
        ])
