-- ===== src/Asm/Report.antt =====
-- src/asm/asm.c: errors and warnings.
use Prim.Native.String.{String}
use buxn.Prelude.{ℕ, ◌+◌, sym, false, Option, none, some, ◌∷◌, u16}
use buxn.Asm.Text.{Text}
use buxn.Asm.State.{
  FilePos, Region, Token, Sym, report_error, report_warning, Report, Act, ◌>>◌, fail, modify,
}

unfoldable pub report : Report → Act (Unit {0})
report r = modify λ a. record a { reports = r ∷ a.reports }

-- It is recorded that the assembly fails, and the call fails.
unfoldable pub set_failed : Act (Unit {0})
set_failed = modify λ a. record a { success = false }

unfoldable pub error_ex : {A : Type 0} → String → Region → Option (String × Region) → Act A
unfolding set_failed report
error_ex message region related =
    set_failed
    >> report record { type = report_error; message = message; region = region; related = related }
    >> fail

abbrev pub error : {A : Type 0} → Token → String → Act A
error token message = error_ex message token.region none

abbrev pub error2 : {A : Type 0} → Token → String → Token → String → Act A
error2 token message related_token related_message =
    error_ex message token.region (some (related_message, related_token.region))

unfoldable pub warning : Token → String → Act (Unit {0})
unfolding report
warning token message =
    report
      record { type = report_warning; message = message; region = token.region; related = none }

abbrev pub no_pos : FilePos
no_pos = record { line = 0; col = 0; byte = 0 }

-- A region that names only the file.
abbrev pub file_region : Text → Region
file_region path = record { filename = path; start = no_pos; stop = no_pos }

unfoldable pub put_symbol : ℕ → Sym → Act (Unit {0})
put_symbol addr sym = modify λ a. record a { symbols = (u16 addr, sym) ∷ a.symbols }

abbrev pub put_symbol2 : ℕ → Sym → Act (Unit {0})
put_symbol2 addr sym = put_symbol addr sym >> put_symbol (addr + 1) sym
