-- ===== src/Dbg/Shortcut.antt =====
-- src/dbg/core.c: skipping the decoding when no breakpoint watches loads or stores is sound.
use buxn.Prelude.{
  ◌⊎◌, sym, ◌≤◌, ℕ, zero, suc, ◌+◌, ◌*◌, ◌/◌, ◌%◌, ◌<◌, ◌≡◌, refl, Bool, true, false, not, ◌&&◌,
  ◌||◌, arith, ◌==◌, ==_iff, ltb, Bool-cases, inl, inr, bit_or, table, table_row,
}
use buxn.Vm.State.{Vm}
use buxn.Vm.Reset.{has_flag}
use buxn.Dbg.State.{Brkp, brkp_none, Dbg, or_masks}
use buxn.Dbg.Match.{Target, no_target, decode, meets, find_brkp, match_brkp}
use buxn.Dbg.Table.{TableIsValid}

abbrev same : Bool → Bool → Bool
same true b = b
same false b = not b

-- Of two masks and their join.
abbrev joins : ℕ → ℕ → Bool
joins a b =
    (same (has_flag (bit_or a b) 8) (has_flag a 8 || has_flag b 8)
      && same (has_flag (bit_or a b) 16) (has_flag a 16 || has_flag b 16))
    && (same (bit_or a b == 0) (a == 0 && b == 0) && ltb (bit_or a b) 256)

all_joins : table 65536 (λ x. joins (x % 256) (x / 256)) ≡ true
unfolding table has_flag
all_joins = refl

-- What a join of masks tells of them.
record Joined (a b : ℕ) : Type 0 where
  load : has_flag (bit_or a b) 8 ≡ (has_flag a 8 || has_flag b 8)
  store : has_flag (bit_or a b) 16 ≡ (has_flag a 16 || has_flag b 16)
  empty : (bit_or a b == 0) ≡ (a == 0 && b == 0)
  byte : bit_or a b < 256

joins-Joined : (a b : ℕ) → joins a b ≡ true → Joined a b
joins-Joined a b h = record {
  load = ground arith;
  store = ground arith;
  empty = ground arith;
  byte = ground arith;
}

joined : (a b : ℕ) → a < 256 → b < 256 → Joined a b
joined a b ha hb =
    let x : ℕ = a + 256 * b in
    let row = table_row 65536 _ x all_joins (omega arith) in
    let ea : x % 256 ≡ a = omega arith in
    let eb : x / 256 ≡ b = omega arith in joins-Joined a b (rw (ea, eb) at row)

-- The masks are bytes.
abbrev pub MasksFit : (ℕ → Brkp) → Type 0
MasksFit brkps = (i : ℕ) → (brkps i).mask < 256

or_masks-lt : (n : ℕ) (brkps : ℕ → Brkp) → MasksFit brkps → or_masks n brkps < 256
unfolding or_masks
or_masks-lt zero brkps h = omega arith
or_masks-lt (suc n) brkps h = (joined _ _ (or_masks-lt n brkps h) (h n)).byte

-- No breakpoint below `n` has a flag that the summary lacks.
summary_empty :
    (n : ℕ) (brkps : ℕ → Brkp) (i : ℕ)
    → MasksFit brkps
    → (or_masks n brkps == 0) ≡ true
    → i < n
    → (brkps i).mask ≡ 0
unfolding or_masks
summary_empty zero brkps i h e lt = absurd (omega arith)
summary_empty (suc n) brkps i h e lt =
    let j = joined (or_masks n brkps) (brkps n).mask (or_masks-lt n brkps h) (h n) in
    elim (Bool-cases (i == n)) [
      | inl e' ↦ ground (arith, j.empty)
      | inr e' ↦ summary_empty n brkps i h (ground (arith, j.empty)) (ground arith)
    ]

summary_flags :
    (n : ℕ) (brkps : ℕ → Brkp) (i : ℕ)
    → MasksFit brkps
    → has_flag (or_masks n brkps) 8 ≡ false
    → has_flag (or_masks n brkps) 16 ≡ false
    → i < n
    → (has_flag (brkps i).mask 8 ≡ false) × (has_flag (brkps i).mask 16 ≡ false)
unfolding or_masks
summary_flags zero brkps i h l s lt = absurd (omega arith)
summary_flags (suc n) brkps i h l s lt =
    let j = joined (or_masks n brkps) (brkps n).mask (or_masks-lt n brkps h) (h n) in
    elim (Bool-cases (i == n)) [
      | inl e' ↦
          (let e : i ≡ n = (==_iff i n).0 e' in
            rw e (ground (arith, j.load), ground (arith, j.store)))
      | inr e' ↦
          summary_flags n brkps i h (ground (arith, j.load)) (ground (arith, j.store))
            (ground arith)
    ]

module _ {W : Type 0} (vm : Vm W) (pc : ℕ) (just_started : Bool) where
  find_brkp_none :
      (t : Target) (brkps : ℕ → Brkp) (left i n : ℕ)
      → i + left ≡ n
      → ((j : ℕ) → j < n → (brkps j).mask ≡ 0)
      → find_brkp vm pc just_started t brkps left i ≡ brkp_none
  unfolding find_brkp
  find_brkp_none t brkps zero i n e h = refl
  find_brkp_none t brkps (suc left) i n e h =
      ground (arith, h i, find_brkp_none t brkps left (i + 1) n (omega arith) h)

  -- A breakpoint that watches neither loads nor stores does not look at the target.
  meets_blind :
      (t u : Target) (brkp : Brkp)
      → has_flag brkp.mask 8 ≡ false
      → has_flag brkp.mask 16 ≡ false
      → meets vm pc just_started t brkp ≡ meets vm pc just_started u brkp
  unfolding meets
  meets_blind t u brkp l s = rw (l, s) refl

  find_brkp_blind :
      (t u : Target) (brkps : ℕ → Brkp) (left i n : ℕ)
      → i + left ≡ n
      → ((j : ℕ)
          → j < n
          → (has_flag (brkps j).mask 8 ≡ false) × (has_flag (brkps j).mask 16 ≡ false))
      → find_brkp vm pc just_started t brkps left i ≡ find_brkp vm pc just_started u brkps left i
  unfolding find_brkp
  find_brkp_blind t u brkps zero i n e h = refl
  find_brkp_blind t u brkps (suc left) i n e h =
      let (l, s) = h i (omega arith) in
      rw (meets_blind t u (brkps i) l s, find_brkp_blind t u brkps left (i + 1) n (omega arith) h)
        refl

  match_brkp-find_brkp :
      (dbg : Dbg)
      → TableIsValid dbg
      → MasksFit dbg.brkps
      → match_brkp dbg vm pc just_started
        ≡ find_brkp vm pc just_started (decode vm pc) dbg.brkps dbg.nbrkps 0
  unfolding match_brkp
  match_brkp-find_brkp dbg h fit =
      let n = dbg.nbrkps in
      let m = h.summary in
      let d = decode vm pc in
      elim (Bool-cases (dbg.brkp_mask == 0)) [
        | inl e ↦ rw e (
            sym (
              find_brkp_none d dbg.brkps n 0 n (omega arith)
                (λ j lt. summary_empty n dbg.brkps j fit (rw m at e) lt)))
        | inr e ↦ elim (Bool-cases (has_flag dbg.brkp_mask 8)) [
          | inl l ↦ rw (e, l) refl
          | inr l ↦ elim (Bool-cases (has_flag dbg.brkp_mask 16)) [
            | inl s ↦ rw (e, l, s) refl
            | inr s ↦
                rw (e, l, s)
                  (find_brkp_blind no_target d dbg.brkps n 0 n (omega arith)
                    (λ j lt. summary_flags n dbg.brkps j fit (rw m at l) (rw m at s) lt))
          ]
        ]
      ]

  -- `r` is the first index from `i` to `n` whose breakpoint is met, or 0xff if there is none.
  abbrev pub IsFirst : Target → (ℕ → Brkp) → ℕ → ℕ → ℕ → Type 0
  IsFirst t brkps i n r =
      ((r ≡ brkp_none) × ((j : ℕ) → i ≤ j → j < n → meets vm pc just_started t (brkps j) ≡ false))
      ⊎ ((i ≤ r)
          × (r < n)
          × (meets vm pc just_started t (brkps r) ≡ true)
          × ((j : ℕ) → i ≤ j → j < r → meets vm pc just_started t (brkps j) ≡ false))

  from_next :
      (t : Target) (brkps : ℕ → Brkp) (i n j : ℕ)
      → meets vm pc just_started t (brkps i) ≡ false
      → ((k : ℕ) → i + 1 ≤ k → k < n → meets vm pc just_started t (brkps k) ≡ false)
      → i ≤ j
      → j < n
      → meets vm pc just_started t (brkps j) ≡ false
  from_next t brkps i n j m others ge lt = elim (Bool-cases (j == i)) [
    | inl e ↦ rw ((==_iff j i).0 e) m
    | inr e ↦ others j (ground arith) lt
  ]

  IsFirst-next :
      (t : Target) (brkps : ℕ → Brkp) (i n r : ℕ)
      → meets vm pc just_started t (brkps i) ≡ false
      → IsFirst t brkps (i + 1) n r
      → IsFirst t brkps i n r
  IsFirst-next t brkps i n r m (inl (e, others)) =
      inl (e, λ j ge lt. from_next t brkps i n j m others ge lt)
  IsFirst-next t brkps i n r m (inr (ge, lt, met, others)) =
      inr (omega arith, lt, met, λ j ge' lt'. from_next t brkps i r j m others ge' lt')

  find_brkp-IsFirst :
      (t : Target) (brkps : ℕ → Brkp) (left i n : ℕ)
      → i + left ≡ n
      → IsFirst t brkps i n (find_brkp vm pc just_started t brkps left i)
  unfolding find_brkp
  find_brkp-IsFirst t brkps zero i n e = inl (refl, λ j ge lt. absurd (omega arith))
  find_brkp-IsFirst t brkps (suc left) i n e =
      elim (Bool-cases (meets vm pc just_started t (brkps i))) [
        | inl m ↦ rw m (inr (omega arith, omega arith, m, λ j ge lt. absurd (omega arith)))
        | inr m ↦
            rw m (
              IsFirst-next t brkps i n _ m (find_brkp-IsFirst t brkps left (i + 1) n (omega arith)))
      ]

  -- With a valid table of byte masks, the breakpoint that is reported is the first of the table that
  -- the opcode at the program counter meets, and 0xff is reported only if it meets none; it makes no
  -- difference that the opcode is decoded only if the summary has a load or store flag.
  pub match_brkp-IsFirst :
      (dbg : Dbg)
      → TableIsValid dbg
      → MasksFit dbg.brkps
      → IsFirst (decode vm pc) dbg.brkps 0 dbg.nbrkps (match_brkp dbg vm pc just_started)
  match_brkp-IsFirst dbg h fit =
      rw (match_brkp-find_brkp dbg h fit)
        (find_brkp-IsFirst (decode vm pc) dbg.brkps dbg.nbrkps 0 dbg.nbrkps (omega arith))
