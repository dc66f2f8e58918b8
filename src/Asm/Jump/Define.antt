-- ===== src/Asm/Jump/Define.antt =====
-- src/asm/asm.c: what the program holds once a label is defined.
use buxn.Prelude.{
  ℕ, ◌+◌, ◌%◌, ◌<◌, ◌≡◌, refl, ap, ◌∙◌, Bool, true, ◌||◌, some, List, [], ◌∷◌, arith, ltb, leb,
  Bytes,
}
use buxn.Vm.State.{load2}
use buxn.Asm.Emit.{set_write_addr, LabelInfo}
use buxn.Asm.Jump.{to_u16-lt, reference_value}
use buxn.Asm.Jump.Patch.{AllRefs, store_all, store_of, store_value, patch-done, Reachable}
use buxn.Asm.State.{
  Token, LabelRefType, ref_zero, ref_abs, ref_rel, LabelRefSize, ref_byte, ref_short, ForwardRef,
  label, Symbol, Asm, done, ◌>>=◌, pure, gets, modify,
}
use buxn.Asm.Report.{put_symbol}
use buxn.Asm.Label.{define_label}
use buxn.Asm.Symbols.{set_entry, update_symbol}

abbrev pub num_bytes : LabelRefSize → ℕ
num_bytes ref_byte = 1
num_bytes ref_short = 2

-- An address that is not among the bytes of a reference.
abbrev pub misses : ℕ → ForwardRef → Bool
misses i r = ltb i r.addr || leb (r.addr + num_bytes r.size) i

-- No byte in common.
abbrev pub apart : ForwardRef → ForwardRef → Bool
apart r s = leb (r.addr + num_bytes r.size) s.addr || leb (s.addr + num_bytes s.size) r.addr

abbrev Separate : List ForwardRef → Type 0
Separate [] = Unit {0}
Separate (r ∷ refs) = AllRefs (λ s. apart r s ≡ true) refs × Separate refs

-- The operand in the program is what a reference of the type and the size stands for.
abbrev Holds : LabelRefSize → Bytes → ℕ → ℕ → Type 0
Holds ref_byte rom addr v = rom addr ≡ v % 256
Holds ref_short rom addr v = load2 rom addr 65536 ≡ v

abbrev pub Resolved : Bytes → ℕ → ForwardRef → Type 0
Resolved rom to r = Holds r.size rom r.addr (reference_value r.type r.addr to)

store_value-misses :
    (size : LabelRefSize) (v addr i : ℕ) (rom : Bytes)
    → ltb i addr || leb (addr + num_bytes size) i ≡ true
    → store_value size v addr rom i ≡ rom i
store_value-misses ref_byte v addr i rom h = ground arith
store_value-misses ref_short v addr i rom h = ground arith

module _ (l : LabelInfo) where
  store_all-misses :
      (refs : List ForwardRef) (rom : Bytes) (i : ℕ)
      → AllRefs (λ r. misses i r ≡ true) refs
      → store_all l refs rom i ≡ rom i
  unfolding store_all
  store_all-misses [] rom i h = refl
  store_all-misses (r ∷ refs) rom i (hr, h) =
      store_all-misses refs (store_of l r rom) i h
      ∙ store_value-misses r.size (reference_value r.type r.addr l.address) r.addr i rom hr

-- References apart from one miss its bytes.
apart-misses :
    (k : ℕ) (r : ForwardRef) (refs : List ForwardRef)
    → k < num_bytes r.size
    → AllRefs (λ s. apart r s ≡ true) refs
    → AllRefs (λ s. misses (r.addr + k) s ≡ true) refs
apart-misses k r [] hk h = tt
apart-misses k r (s ∷ refs) hk (hs, h) = (ground arith, apart-misses k r refs hk h)

reference_value-lt :
    (type : LabelRefType) (from to : ℕ) → to < 65536 → reference_value type from to < 65536
reference_value-lt ref_zero from to h = omega arith
reference_value-lt ref_abs from to h = h
reference_value-lt ref_rel from to h = to_u16-lt _

-- The bytes of one reference, where later stores keep them.
Holds-store :
    (size : LabelRefSize) (v addr : ℕ) (rom after : Bytes)
    → v < 65536
    → addr < 65535
    → ((k : ℕ) → k < num_bytes size → after (addr + k) ≡ store_value size v addr rom (addr + k))
    → Holds size after addr v
unfolding load2
Holds-store ref_byte v addr rom after hv ha h = let e = h 0 (omega arith) in ground (arith, e)
Holds-store ref_short v addr rom after hv ha h =
    let e = h 0 (omega arith) in let f = h 1 (omega arith) in ground (arith, e, f)

module _ (l : LabelInfo) (address : l.address < 65536) where
  store_all-Resolved :
      (refs : List ForwardRef) (rom : Bytes)
      → AllRefs (Reachable l) refs
      → Separate refs
      → AllRefs (Resolved (store_all l refs rom) l.address) refs
  unfolding store_all
  store_all-Resolved [] rom h sep = tt
  store_all-Resolved (r ∷ refs) rom (hr, h) (ap_r, sep) = (
    Holds-store r.size (reference_value r.type r.addr l.address) r.addr rom _
        (reference_value-lt r.type r.addr l.address address) hr.0.1
        (λ k hk.
          store_all-misses l refs (store_of l r rom) (r.addr + k) (apart-misses k r refs hk ap_r)),
    store_all-Resolved refs (store_of l r rom) h sep,
  )

-- What a definition gives the references to a symbol.
abbrev info_at : Symbol → ℕ → ℕ → LabelInfo
info_at s id at = record {
  name = some s.key;
  id = id;
  address = at;
  defining_token = s.defining_token;
}

module _ (token : Token) (s : Symbol) (id : ℕ) (refs : List ForwardRef) (a : Asm) where
  -- A label that is defined resolves the references that were made to it before, if each has room
  -- behind the zero page and reaches it, and no two share a byte: the definition succeeds, each
  -- operand then holds what a reference of its type and size to this address stands for, all other
  -- bytes of the program are as before, and the assembler goes on where it was.
  pub define_label-Resolved :
      a.write_addr < 65536
      → AllRefs (Reachable (info_at s id a.write_addr)) refs
      → Separate refs
      → let result = define_label token s id refs a in
        (result.0 ≡ done s)
        × AllRefs (Resolved result.1.rom a.write_addr) refs
        × ((i : ℕ) → AllRefs (λ r. misses i r ≡ true) refs → result.1.rom i ≡ a.rom i)
        × (result.1.write_addr ≡ a.write_addr)
  unfolding define_label ◌>>=◌ gets update_symbol modify set_write_addr put_symbol pure
  define_label-Resolved ha h sep =
      let l = info_at s id a.write_addr in
      let start = (update_symbol s.key (set_entry (label id a.write_addr)) a).1 in
      let p = patch-done l refs start ha h in
      rw p.1 (
        refl,
        rw p.2 (store_all-Resolved l ha refs a.rom h sep),
        λ i m. ap (λ (t : Bytes). t i) p.2 ∙ store_all-misses l refs a.rom i m,
        refl,
      )
