-- ===== src/Dbg/Table.antt =====
-- src/dbg/core.c: the table of breakpoints, its length and the summary of its masks.
use buxn.Prelude.{
  not, ◌&&◌, if◌then◌else◌, ltb, ℕ, zero, suc, ◌+◌, ◌-◌, ◌≤◌, ◌<◌, ◌≡◌, ◌≢◌, refl, arith, ◌==◌, leb,
  Bool-cases, inl, inr,
}
use buxn.Dbg.State.{Brkp, brkp_none, Dbg, init, last_used, or_masks, put_brkp, set_brkp}

-- The length is one more than the last index in use, at most 255, and the summary joins the masks.
pub record TableIsValid (dbg : Dbg) : Type 0 where
  pub bound : dbg.nbrkps ≤ 255
  pub unused : (i : ℕ) → dbg.nbrkps ≤ i → (dbg.brkps i).mask ≡ 0
  pub last : 0 < dbg.nbrkps → (dbg.brkps (dbg.nbrkps - 1)).mask ≢ 0
  pub summary : dbg.brkp_mask ≡ or_masks dbg.nbrkps dbg.brkps

last_used-le : (n : ℕ) (brkps : ℕ → Brkp) → last_used n brkps ≤ n
unfolding last_used
last_used-le zero brkps = omega arith
last_used-le (suc n) brkps = ground (arith, last_used-le n brkps)

last_used_unused :
    (n : ℕ) (brkps : ℕ → Brkp) (i : ℕ) → last_used n brkps ≤ i → i < n → (brkps i).mask ≡ 0
unfolding last_used
last_used_unused zero brkps i h lt = absurd (omega arith)
last_used_unused (suc n) brkps i h lt = elim (Bool-cases ((brkps n).mask == 0)) [
  | inl e ↦ elim (Bool-cases (i == n)) [
    | inl e' ↦ ground arith
    | inr e' ↦ last_used_unused n brkps i (ground arith) (ground arith)
  ]
  | inr e ↦ absurd (ground arith)
]

last_used_last :
    (n : ℕ) (brkps : ℕ → Brkp) → 0 < last_used n brkps → (brkps (last_used n brkps - 1)).mask ≢ 0
unfolding last_used
last_used_last zero brkps h = absurd (omega arith)
last_used_last (suc n) brkps h = elim (Bool-cases ((brkps n).mask == 0)) [
  | inl e ↦ rw e (last_used_last n brkps (rw e at h))
  | inr e ↦ rw (e, top) λ z. absurd (ground arith)
]
  where
    top : suc n - 1 ≡ n
    top = omega arith

-- A fresh debugger has a valid table.
pub init-TableIsValid : TableIsValid init
unfolding init or_masks
init-TableIsValid = record {
  bound = omega arith;
  unused = λ i h. refl;
  last = λ h. absurd (omega arith);
  summary = refl;
}

abbrev rebuilt : Dbg → ℕ → (ℕ → Brkp) → Dbg
rebuilt dbg n brkps = record dbg { brkps = brkps; nbrkps = n; brkp_mask = or_masks n brkps }

module _ (id : ℕ) (brkp : Brkp) (dbg : Dbg) where
  -- A debugger after the breakpoint `id` was set: the table has it there and is as it was elsewhere,
  -- and the state of the execution is as it was. There is no breakpoint 0xff.
  pub record Stored (dbg' : Dbg) : Type 0 where
    pub brkps :
        (i : ℕ) → dbg'.brkps i ≡ (if (i == id) && not (id == brkp_none) then brkp else dbg.brkps i)
    pub executing : dbg'.executing ≡ dbg.executing
    pub standing_cmd : dbg'.standing_cmd ≡ dbg.standing_cmd
    pub standing_rsp : dbg'.standing_rsp ≡ dbg.standing_rsp

  set_brkp-Stored : Stored (set_brkp id brkp dbg)
  unfolding set_brkp put_brkp
  set_brkp-Stored = record {
    brkps = λ i. ground arith;
    executing = ground arith;
    standing_cmd = ground arith;
    standing_rsp = ground arith;
  }

  set_brkp-brkp_none : set_brkp brkp_none brkp dbg ≡ dbg
  unfolding set_brkp
  set_brkp-brkp_none = refl

module _ (id : ℕ) (brkp : Brkp) (dbg : Dbg) (h : TableIsValid dbg) where
  abbrev table' : ℕ → Brkp
  table' = put_brkp dbg.brkps id brkp

  cleared_unused : brkp.mask ≡ 0 → (i : ℕ) → last_used dbg.nbrkps table' ≤ i → (table' i).mask ≡ 0
  unfolding put_brkp
  cleared_unused z i le = elim (Bool-cases (ltb i dbg.nbrkps)) [
    | inl lt ↦ last_used_unused dbg.nbrkps table' i le (ground arith)
    | inr ge ↦ ground (arith, h.unused i)
  ]

  cleared-TableIsValid :
      brkp.mask ≡ 0 → TableIsValid (rebuilt dbg (last_used dbg.nbrkps table') table')
  cleared-TableIsValid z = record {
    bound = omega (arith, last_used-le dbg.nbrkps table', h.bound);
    unused = cleared_unused z;
    last = last_used_last dbg.nbrkps table';
    summary = refl;
  }

  grown-TableIsValid :
      id < 255 → dbg.nbrkps ≤ id → brkp.mask ≢ 0 → TableIsValid (rebuilt dbg (id + 1) table')
  unfolding put_brkp
  grown-TableIsValid lt ge nz = record {
    bound = omega arith;
    unused = λ i le. ground (arith, h.unused i);
    last = λ p. ground arith;
    summary = refl;
  }

  kept-TableIsValid : id < dbg.nbrkps → brkp.mask ≢ 0 → TableIsValid (rebuilt dbg dbg.nbrkps table')
  unfolding put_brkp
  kept-TableIsValid lt nz = record {
    bound = h.bound;
    unused = λ i le. ground (arith, h.unused i);
    last = λ p. ground (arith, h.last);
    summary = refl;
  }

  set_brkp_valid : id < 256 → TableIsValid (set_brkp id brkp dbg)
  unfolding set_brkp
  set_brkp_valid byte = elim (Bool-cases (id == brkp_none)) [
    | inl e ↦ rw e h
    | inr e ↦ elim (Bool-cases (brkp.mask == 0)) [
      | inl z ↦ rw (e, z) (cleared-TableIsValid (ground arith))
      | inr z ↦ elim (Bool-cases (leb dbg.nbrkps id)) [
        | inl ge ↦ rw (e, z, ge) (grown-TableIsValid (ground arith) (ground arith) (ground arith))
        | inr lt ↦ rw (e, z, lt) (kept-TableIsValid (ground arith) (ground arith))
      ]
    ]
  ]

  -- Setting or clearing any breakpoint below 0xff of a valid table puts it into the table, changes no
  -- other breakpoint and nothing of the execution's state, and keeps the table valid: the length is
  -- one more than the last index with a mask, and the summary is the join of all masks. The id 0xff
  -- changes nothing at all.
  pub set_brkp-TableIsValid :
      id < 256
      → TableIsValid (set_brkp id brkp dbg)
        × Stored id brkp dbg (set_brkp id brkp dbg)
        × (set_brkp brkp_none brkp dbg ≡ dbg)
  set_brkp-TableIsValid byte =
      (set_brkp_valid byte, set_brkp-Stored id brkp dbg, set_brkp-brkp_none id brkp dbg)
