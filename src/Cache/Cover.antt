-- ===== src/Cache/Cover.antt =====
-- The lines that the maintenance of the data cache reaches.
use device_abstraction_stack.Base.{
  ℕ, ◌+◌, ◌-◌, ◌*◌, ◌/◌, ◌%◌, ◌^◌, ◌≤◌, ◌<◌, ◌≡◌, ◌⊎◌, inl, inr, ◌∙◌, refl, ap, arith, Bool-cases,
  true, false, u32, sub32, uint32_max, ltb, ◌==◌, has_bits, if◌then◌else◌,
}
use device_abstraction_stack.Base.Bits.{bit_and_low}
use device_abstraction_stack.Base.Fields.{bit_and_high}
use device_abstraction_stack.Machine.Reg.{Reg}
use device_abstraction_stack.Machine.Platform.{Platform}
use device_abstraction_stack.Machine.World.{World}
use device_abstraction_stack.Machine.Monad.{Outcome, ok, err, invalid_argument}
use device_abstraction_stack.Cache.Range.{line_start, line_range, cache_range, line_mask}
use device_abstraction_stack.Cache.{maintain, has_dcache, das_cache_data_is_enabled}

line_start_lem : (x : ℕ) → x < 2 ^ 32 → line_start x ≡ x / 32 * 32
unfolding line_start
line_start_lem x h =
    bit_and_high 5 x (2 ^ 27 - 1)
    ∙ ap (λ (t : ℕ). t * 2 ^ 5) (bit_and_low 27 (x / 2 ^ 5))
    ∙ omega arith

-- The range of the cache lines that `size` bytes from `address` touch: it consists of whole lines, and
-- contains the bytes and fewer than 32 further ones at either end.
pub record Covers (address size first span : ℕ) : Type 0 where
  pub first_line : first % 32 ≡ 0
  pub whole_lines : span % 32 ≡ 0
  pub from_start : first ≤ address
  pub to_end : address + size ≤ first + span
  pub tight_start : address < first + 32
  pub tight_end : first + span < address + size + 32

-- What the code accepts: the range ends below the end of the address space, and its size is an
-- `int32_t`. The last line of the address space ends at its end.
abbrev pub Accepted : ℕ → ℕ → Type 0
Accepted first span = (first + span < 2 ^ 32) × (span < 2 ^ 31)

-- The range of the touched lines, whatever it is, ends at the end of the address space or beyond, or
-- its size is no `int32_t`.
abbrev pub Refused : ℕ → ℕ → Type 0
Refused address size =
    (first span : ℕ) → Covers address size first span → (2 ^ 32 ≤ first + span) ⊎ (2 ^ 31 ≤ span)

-- The range is found and accepted, or refused.
abbrev pub Decided : ℕ → ℕ → Outcome (ℕ × ℕ) → Type 0
Decided address size r =
    ((first : ℕ) × (span : ℕ) × (r ≡ ok (first, span))
      × Covers address size first span
      × Accepted first span)
    ⊎ ((r ≡ err invalid_argument) × Refused address size)

-- A range that covers ends at the next line boundary and starts at the last one.
Covers-end :
    {address size first span : ℕ}
    → Covers address size first span
    → first + span ≡ (address + size + 31) / 32 * 32
Covers-end c = omega (arith, c.first_line, c.whole_lines, c.to_end, c.tight_end)

Covers-start :
    {address size first span : ℕ} → Covers address size first span → first ≡ address / 32 * 32
Covers-start c = omega (arith, c.first_line, c.from_start, c.tight_start)

line_range-Decided :
    (address size : ℕ)
    → 0 < size
    → address + size < 2 ^ 32
    → Decided address size (line_range address (address + size))
unfolding line_range
line_range-Decided address size h k =
    let first = address / 32 * 32 in
    let last = (address + size + 31) / 32 * 32 in
    elim (Bool-cases (ltb (uint32_max - line_mask) (address + size))) [
      | inl far ↦
          let beyond : 2 ^ 32 - 32 < address + size = ground arith in
          rw far (inr (refl, λ a b c. inl (omega (arith, Covers-end c))))
      | inr near ↦
          let close : address + size ≤ 2 ^ 32 - 32 = ground arith in
          let end_whole : u32 (address + size + 31) ≡ address + size + 31 = omega arith in
          let span_whole : sub32 last first ≡ last - first = omega arith in
          rw
            (
              near,
              end_whole,
              line_start_lem address (omega arith),
              line_start_lem (address + size + 31) (omega arith),
              span_whole,
            )
            (elim (Bool-cases (ltb 0x7fff_ffff (last - first))) [
              | inl long ↦
                  let wide : 2 ^ 31 ≤ last - first = ground arith in
                  rw long (inr (refl, λ a b c. inr (omega (arith, Covers-start c, Covers-end c))))
              | inr short ↦
                  let narrow : last - first < 2 ^ 31 = ground arith in
                  rw short (
                    inl (
                      first,
                      last - first,
                      refl,
                      record {
                        first_line = omega arith;
                        whole_lines = omega arith;
                        from_start = omega arith;
                        to_end = omega arith;
                        tight_start = omega arith;
                        tight_end = omega arith;
                      },
                      (omega arith, narrow),
                    ))
            ])
    ]

-- For a non-null address and some bytes, `cache_range` finds the range of the lines that they touch,
-- which then ends below 2^32 and has a size below 2^31, or reports an invalid argument, in which case
-- that range reaches 2^32, as one with the last line of the address space does, or has a size of 2^31
-- or more.
pub cache_range-Decided :
    (address size : ℕ)
    → 0 < address
    → address < 2 ^ 32
    → 0 < size
    → Decided address size (cache_range address size)
unfolding cache_range
cache_range-Decided address size h k l =
    let some_bytes : (size == 0) ≡ false = ground arith in
    let some_address : (address == 0) ≡ false = ground arith in
    rw (some_bytes, some_address)
      (elim (Bool-cases (ltb (uint32_max - address) size)) [
        | inl wraps ↦
            let beyond : 2 ^ 32 ≤ address + size = ground arith in
            rw wraps (inr (refl, λ a b c. inl (omega (arith, c.to_end))))
        | inr fits ↦
            let close : address + size < 2 ^ 32 = ground arith in
            let whole : u32 (address + size) ≡ address + size = omega arith in
            rw (fits, whole) (line_range-Decided address size l close)
      ])

module _ ⦃p : Platform⦄ where
  -- On the Cortex-M7, maintaining a non-empty range at a non-null address succeeds: CMSIS is given the
  -- range of the lines that it touches when the cache is enabled, and nothing but the enable bit is
  -- read when it is not; or it fails without any access, and then the range of the lines reaches 2^32,
  -- as one with the last line of the address space does, or has a size of 2^31 or more.
  pub maintain-Covers :
      (by_addr : ℕ → ℕ → p.State → p.State) (address size : ℕ) (w : World p)
      → has_dcache ≡ true
      → 0 < address
      → address < 2 ^ 32
      → 0 < size
      → let (ccr, s) = p.read Reg.scb_ccr w.hw in
        ((first : ℕ) × (span : ℕ) × Covers address size first span
          × Accepted first span
          × (maintain by_addr address size w ≡ (
            ok tt,
            record w {
              hw = if has_bits ccr p.cmsis.core.scb_ccr_dc_msk then by_addr first span s else s;
            },
          )))
        ⊎ ((maintain by_addr address size w ≡ (err invalid_argument, w)) × Refused address size)
  unfolding maintain das_cache_data_is_enabled
  maintain-Covers by_addr address size w m7 h k l =
      let some_bytes : (size == 0) ≡ false = ground arith in
      let some_address : (address == 0) ≡ false = ground arith in
      rw (some_bytes, some_address)
        (elim (cache_range-Decided address size h k l) [
          | inr (refused, why) ↦ rw (m7, refused) (inr (refl, why))
          | inl (first, span, found, c, accepted) ↦
              rw (m7, found)
                (elim (Bool-cases
                  (has_bits (p.read Reg.scb_ccr w.hw).0 p.cmsis.core.scb_ccr_dc_msk)) [
                    | inl enabled ↦ rw enabled (inl (first, span, c, accepted, refl))
                    | inr disabled ↦ rw disabled (inl (first, span, c, accepted, refl))
                  ])
        ])
