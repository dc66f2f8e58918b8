-- ===== src/Asm/Jump/Lambda.antt =====
-- src/asm/asm.c with src/vm/exec.h: the jumps over a lambda.
use buxn.Prelude.{◌+◌, ◌<◌, ◌≡◌, refl, ap, ◌∙◌, List, ◌∷◌, arith, u16}
use buxn.Asm.Jump.{
  to_u16-lt, Room, with_short, reference_value, JumpsTo, jumps-to, emit2-done, load2-with_short,
}
use buxn.Asm.Emit.{to_u16, difference, emit_addr, set_write_addr, calculate_addr}
use buxn.Vm.State.{Host}
use buxn.Vm.Cpu.{Cpu}
use buxn.Asm.State.{Token, ref_rel, ref_short, ForwardRef, Asm, done, ◌>>=◌, pure, gets, modify}
use buxn.Asm.Report.{put_symbol}
use buxn.Asm.Ref.{set_lambdas, close_lambda, generated_sym, process_lambda_close}

-- The reference of a lambda whose brace followed a rune for a jump.
abbrev IsJump : ForwardRef → Type 0
IsJump r = (r.type ≡ ref_rel) × (r.size ≡ ref_short) × Room r.addr

-- The state behind the close of the latest lambda, up to what is told of it.
unfoldable pub closed : Token → ForwardRef → List ForwardRef → Asm → Asm
closed token r refs a =
    let b =
      with_short (reference_value ref_rel r.addr a.write_addr) (record a { write_addr = r.addr }) in
    record b {
      write_addr = a.write_addr;
      lambdas = refs;
      symbols = (u16 a.write_addr, generated_sym r.lambda_id r.label_id token.region) ∷ a.symbols;
    }

-- A reference as one for a jump.
abbrev as_jump : ForwardRef → ForwardRef
as_jump r = record r { type = ref_rel; size = ref_short }

close_jump :
    (token : Token) (r : ForwardRef) (refs : List ForwardRef) (a : Asm)
    → Room r.addr
    → close_lambda token (as_jump r ∷ refs) a ≡ (done tt, closed token r refs a)
unfolding closed ◌>>=◌ gets calculate_addr set_write_addr modify emit_addr set_lambdas put_symbol
    pure
close_jump token r refs a room =
    rw
      (emit2-done r.token (to_u16 (difference a.write_addr (r.addr + 2)))
        (record a { write_addr = r.addr }) room)
      refl

module _ {W : Type 0} (host : Host W) (token : Token) (r : ForwardRef) (refs : List ForwardRef)
    (a : Asm) where
  -- A closing brace resolves the latest lambda that a jump opened, if its operand has room behind
  -- the zero page: it succeeds, the assembler goes on where it was, the lambda is closed, and on a
  -- machine with this program each immediate jump at that operand goes to the brace.
  pub process_lambda_close-jump :
      a.lambdas ≡ r ∷ refs
      → IsJump r
      → a.write_addr < 65536
      → let result = process_lambda_close token a in
        (result.0 ≡ done tt)
        × (result.1.write_addr ≡ a.write_addr)
        × (result.1.lambdas ≡ refs)
        × ((c : Cpu W) → c.pc ≡ r.addr → c.vm.memory ≡ result.1.rom → JumpsTo host c a.write_addr)
  unfolding process_lambda_close ◌>>=◌ gets
  process_lambda_close-jump h (type, size, room) ha =
      let q : r ≡ as_jump r = λ i. record r { type = type i; size = size i } in
      let e : process_lambda_close token a ≡ (done tt, closed token r refs a) =
        ap (λ l. close_lambda token l a) (h ∙ ap (λ x. x ∷ refs) q)
        ∙ close_jump token r refs a room in
      rw e (
        unfold closed in
        (
          refl,
          refl,
          refl,
          λ c pc mem. jumps-to host c r.addr a.write_addr pc (omega (arith, room.1)) ha (
              rw mem (
                load2-with_short (reference_value ref_rel r.addr a.write_addr)
                  (record a { write_addr = r.addr }) room.1 (to_u16-lt _))),
        ))
