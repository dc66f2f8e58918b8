-- ===== src/Vm/Opcode.antt =====
-- include/buxn/vm/opcodes.h: the table of all opcodes, and the dispatch that it generates.
use buxn.Prelude.{
  ℕ, ◌+◌, Bool, true, false, Option, none, some, List, [], ◌∷◌, ◌++◌, ◌==◌, if◌then◌else◌,
}

-- The opcodes with mode flags, in the order of their values from 0x01 to 0x1f.
pub data Base : Type 0 where
  inc pop nip swp rot dup ovr equ neq gth lth jmp jcn jsr sth : Base
  ldz stz ldr str lda sta dei deo add sub mul div and ora eor sft : Base

-- One label of the interpreter. A `poly` has the flags k, r and s; a literal has r and s.
pub data Op : Type 0 where
  brk jci jmi jsi : Op
  lit : Bool → Bool → Op
  poly : Base → Bool → Bool → Bool → Op

-- The values of the `BUXN_OPCODE_DISPATCH` rows.
unfoldable pub base_value : Base → ℕ
base_value inc = 0x01
base_value pop = 0x02
base_value nip = 0x03
base_value swp = 0x04
base_value rot = 0x05
base_value dup = 0x06
base_value ovr = 0x07
base_value equ = 0x08
base_value neq = 0x09
base_value gth = 0x0a
base_value lth = 0x0b
base_value jmp = 0x0c
base_value jcn = 0x0d
base_value jsr = 0x0e
base_value sth = 0x0f
base_value ldz = 0x10
base_value stz = 0x11
base_value ldr = 0x12
base_value str = 0x13
base_value lda = 0x14
base_value sta = 0x15
base_value dei = 0x16
base_value deo = 0x17
base_value add = 0x18
base_value sub = 0x19
base_value mul = 0x1a
base_value div = 0x1b
base_value and = 0x1c
base_value ora = 0x1d
base_value eor = 0x1e
base_value sft = 0x1f

-- `BASE | 0x80 | 0x40 | 0x20`, each flag where it is picked. No base value has such a bit.
unfoldable pub opcode_value : ℕ → Bool → Bool → Bool → ℕ
opcode_value base k r s =
    base + (if k then 0x80 else 0) + (if r then 0x40 else 0) + (if s then 0x20 else 0)

-- The value of each label.
unfoldable pub value : Op → ℕ
unfolding opcode_value base_value
value brk = 0x00
value jci = 0x20
value jmi = 0x40
value jsi = 0x60
value (lit r s) = opcode_value 0x80 false r s
value (poly b k r s) = opcode_value (base_value b) k r s

-- `BUXN_OPCODE_DISPATCH_POLY` and `BUXN_OPCODE_DISPATCH_KEEP`: the labels of one row.
unfoldable pub poly_row : Base → List Op
poly_row b =
    poly b false false false
    ∷ poly b false false true
    ∷ poly b false true false
    ∷ poly b false true true
    ∷ poly b true false false
    ∷ poly b true false true
    ∷ poly b true true false
    ∷ poly b true true true
    ∷ []

unfoldable pub keep_row : List Op
keep_row = lit false false ∷ lit false true ∷ lit true false ∷ lit true true ∷ []

abbrev bases : List Base
bases =
    inc ∷ pop ∷ nip ∷ swp ∷ rot ∷ dup ∷ ovr ∷ equ ∷ neq ∷ gth ∷ lth ∷ jmp ∷ jcn ∷ jsr ∷ sth ∷ ldz
    ∷ stz ∷ ldr ∷ str ∷ lda ∷ sta ∷ dei ∷ deo ∷ add ∷ sub ∷ mul ∷ div ∷ and ∷ ora ∷ eor ∷ sft ∷ []

abbrev poly_rows : List Base → List Op
poly_rows [] = []
poly_rows (b ∷ bs) = poly_row b ++ poly_rows bs

-- `BUXN_OPCODE_DISPATCH`: the whole table.
unfoldable pub opcode_dispatch : List Op
unfolding poly_row keep_row
opcode_dispatch = (brk ∷ poly_rows bases) ++ jci ∷ jmi ∷ jsi ∷ keep_row

-- The label at an index of the generated dispatch table; `none` is an index that no row fills.
unfoldable pub find_label : List Op → ℕ → Option Op
unfolding value
find_label [] opcode = none
find_label (op ∷ rows) opcode = if opcode == value op then some op else find_label rows opcode

unfoldable pub dispatch : ℕ → Option Op
unfolding find_label opcode_dispatch
dispatch opcode = find_label opcode_dispatch opcode
