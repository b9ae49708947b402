-- ===== src/Startup/Sections.antt =====
-- The sections of a program after the reset handler has initialised them.
use device_abstraction_stack.Base.{
  ℕ, zero, suc, ◌+◌, ◌*◌, ◌<◌, ◌≤◌, ◌≡◌, ◌≢◌, ◌∙◌, ap, ◌⊎◌, inl, inr, refl, arith, true, false,
  some, ltb,
}
use device_abstraction_stack.Startup.{
  Memory, Linked, store, copy_data, zero_bss, initialize_c_runtime,
}

store-same : (address value : ℕ) (m : Memory) → store address value m address ≡ value
unfolding store
store-same address value m = ground arith

store-other : (address value a : ℕ) (m : Memory) → a ≢ address → store address value m a ≡ m a
unfolding store
store-other address value a m other = ground arith

-- Apart from `n` words each, from two addresses on.
abbrev pub Disjoint : ℕ → ℕ → ℕ → Type 0
Disjoint n a b = (a + 4 * n ≤ b) ⊎ (b + 4 * n ≤ a)

abbrev pub Outside : ℕ → ℕ → ℕ → Type 0
Outside start end_ a = (a < start) ⊎ (end_ ≤ a)

-- What a loop leaves alone, when it goes on behind a word that it has stored.
kept_behind :
    (destination value end_ a : ℕ) (m m' : Memory)
    → destination < end_
    → ((b : ℕ) → Outside (destination + 4) end_ b → m' b ≡ store destination value m b)
    → Outside destination end_ a
    → m' a ≡ m a
kept_behind destination value end_ a m m' room keeps (inl below) =
    keeps a (inl (omega arith)) ∙ store-other destination value a m (ground arith)
kept_behind destination value end_ a m m' room keeps (inr above) =
    keeps a (inr above) ∙ store-other destination value a m (ground arith)

-- The word that a loop has stored before it goes on.
stored_first :
    (destination value end_ : ℕ) (m m' : Memory)
    → ((b : ℕ) → Outside (destination + 4) end_ b → m' b ≡ store destination value m b)
    → m' destination ≡ value
stored_first destination value end_ m m' keeps =
    keeps destination (inl (omega arith)) ∙ store-same destination value m

copied_step :
    (k source destination end_ i : ℕ) (m m' : Memory)
    → Disjoint (suc k) source destination
    → ((j : ℕ)
        → j < k
        → m' (destination + 4 + 4 * j) ≡ store destination (m source) m (source + 4 + 4 * j))
    → ((b : ℕ) → Outside (destination + 4) end_ b → m' b ≡ store destination (m source) m b)
    → i < suc k
    → m' (destination + 4 * i) ≡ m (source + 4 * i)
copied_step k source destination end_ zero m m' apart copies keeps less =
    let there : destination + 4 * 0 ≡ destination = omega arith in
    let here : source ≡ source + 4 * 0 = omega arith in
    ap m' there ∙ stored_first destination (m source) end_ m m' keeps ∙ ap m here
copied_step k source destination end_ (suc j) m m' apart copies keeps less =
    let there : destination + 4 * suc j ≡ destination + 4 + 4 * j = omega arith in
    let here : source + 4 + 4 * j ≡ source + 4 * suc j = omega arith in
    ap m' there
    ∙ copies j (omega arith)
    ∙ store-other destination (m source) (source + 4 + 4 * j) m (ground arith)
    ∙ ap m here

copy_data-copied :
    (n fuel source destination end_ : ℕ) (m : Memory)
    → n < fuel
    → end_ ≡ destination + 4 * n
    → Disjoint n source destination
    → (m' : Memory) × (copy_data fuel source destination end_ m ≡ some m')
      × ((i : ℕ) → i < n → m' (destination + 4 * i) ≡ m (source + 4 * i))
      × ((a : ℕ) → Outside destination end_ a → m' a ≡ m a)
unfolding copy_data
copy_data-copied n zero source destination end_ m enough e apart = absurd (omega arith)
copy_data-copied zero (suc fuel) source destination end_ m enough e apart =
    let done : ltb destination end_ ≡ false = ground arith in
    (m, rw done refl, (λ i less. absurd (omega arith)), λ a out. refl)
copy_data-copied (suc k) (suc fuel) source destination end_ m enough e apart =
    let m1 = store destination (m source) m in
    let more : ltb destination end_ ≡ true = ground arith in
    let (m', runs, copies, keeps) =
      copy_data-copied k fuel (source + 4) (destination + 4) end_ m1 (omega arith) (omega arith)
        (ground arith) in
    (
      m',
      rw more runs,
      (λ i less. copied_step k source destination end_ i m m' apart copies keeps less),
      λ a out. kept_behind destination (m source) end_ a m m' (omega arith) keeps out,
    )

zeroed_step :
    (k destination end_ i : ℕ) (m m' : Memory)
    → ((j : ℕ) → j < k → m' (destination + 4 + 4 * j) ≡ 0)
    → ((b : ℕ) → Outside (destination + 4) end_ b → m' b ≡ store destination 0 m b)
    → i < suc k
    → m' (destination + 4 * i) ≡ 0
zeroed_step k destination end_ zero m m' zeroes keeps less =
    let there : destination + 4 * 0 ≡ destination = omega arith in
    ap m' there ∙ stored_first destination 0 end_ m m' keeps
zeroed_step k destination end_ (suc j) m m' zeroes keeps less =
    let there : destination + 4 * suc j ≡ destination + 4 + 4 * j = omega arith in
    ap m' there ∙ zeroes j (omega arith)

zero_bss-zeroed :
    (n fuel destination end_ : ℕ) (m : Memory)
    → n < fuel
    → end_ ≡ destination + 4 * n
    → (m' : Memory) × (zero_bss fuel destination end_ m ≡ some m')
      × ((i : ℕ) → i < n → m' (destination + 4 * i) ≡ 0)
      × ((a : ℕ) → Outside destination end_ a → m' a ≡ m a)
unfolding zero_bss
zero_bss-zeroed n zero destination end_ m enough e = absurd (omega arith)
zero_bss-zeroed zero (suc fuel) destination end_ m enough e =
    let done : ltb destination end_ ≡ false = ground arith in
    (m, rw done refl, (λ i less. absurd (omega arith)), λ a out. refl)
zero_bss-zeroed (suc k) (suc fuel) destination end_ m enough e =
    let more : ltb destination end_ ≡ true = ground arith in
    let (m', runs, zeroes, keeps) =
      zero_bss-zeroed k fuel (destination + 4) end_ (store destination 0 m) (omega arith)
        (omega arith) in
    (
      m',
      rw more runs,
      (λ i less. zeroed_step k destination end_ i m m' zeroes keeps less),
      λ a out. kept_behind destination 0 end_ a m m' (omega arith) keeps out,
    )

-- When the sections are whole words, the load image does not overlap the data section and the bss
-- section does not either, the initialisation ends, given fuel for the longer of the two: the data
-- section then holds the words of the image, the bss section holds zeros, and the rest of memory is as
-- it was.
pub initialize_c_runtime-Initialized :
    (data_words bss_words fuel : ℕ) (linked : Linked) (m : Memory)
    → linked.data_end ≡ linked.data_start + 4 * data_words
    → linked.bss_end ≡ linked.bss_start + 4 * bss_words
    → Disjoint data_words linked.data_load linked.data_start
    → (linked.data_end ≤ linked.bss_start) ⊎ (linked.bss_end ≤ linked.data_start)
    → data_words < fuel
    → bss_words < fuel
    → (m' : Memory) × (initialize_c_runtime fuel linked m ≡ some m')
      × ((i : ℕ) → i < data_words → m' (linked.data_start + 4 * i) ≡ m (linked.data_load + 4 * i))
      × ((i : ℕ) → i < bss_words → m' (linked.bss_start + 4 * i) ≡ 0)
      × ((a : ℕ)
          → Outside linked.data_start linked.data_end a
          → Outside linked.bss_start linked.bss_end a
          → m' a ≡ m a)
unfolding initialize_c_runtime
initialize_c_runtime-Initialized data_words bss_words fuel linked m ends ends_too image apart long
      wide =
    let (m1, copying, copies, kept) =
      copy_data-copied data_words fuel linked.data_load linked.data_start linked.data_end m long
        ends image in
    let (m2, zeroing, zeroes, keeps) =
      zero_bss-zeroed bss_words fuel linked.bss_start linked.bss_end m1 wide ends_too in
    (
      m2,
      rw (copying, initialize_c_runtime) zeroing,
      (λ i less. keeps (linked.data_start + 4 * i) (ground arith) ∙ copies i less),
      zeroes,
      λ a out beyond. keeps a beyond ∙ kept a out,
    )
