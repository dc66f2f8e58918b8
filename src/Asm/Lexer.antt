-- ===== src/Asm/Lexer.antt =====
-- src/asm/asm.c: the tokens of a file and of a macro.
pub mod Ends
pub mod Sizes
use Prim.Native.String.{String}
use buxn.Prelude.{
  ℕ, zero, suc, ◌+◌, ◌-◌, ◌*◌, ◌/◌, ◌%◌, ◌^◌, ◌≤◌, ◌<◌, ◌≡◌, refl, sym, ap, ◌∙◌, Bool, true, false,
  not, ◌&&◌, ◌||◌, Option, none, some, List, [], ◌∷◌, ◌++◌, arith, ltb, leb, ◌==◌, if◌then◌else◌,
  Bool-cases, Option-cases, inl, inr, u8, u16, Bytes, update, length,
}
use buxn.Asm.Text.{
  Text, text_eq, is_only, is_runic, is_digit, is_hex_letter, is_uppercased, is_sep, is_number,
  skip_plus, str_pop_front,
}
use buxn.Asm.State.{
  FilePos, Region, Token, Input, char, io_eof, io_error, AsmUnit, file_unit, macro_unit,
  LabelRefType, ref_zero, ref_abs, ref_rel, LabelRefSize, ref_byte, ref_short, ForwardRef, Entry,
  unknown, macro, label, forward_ref, Symbol, SymType, sym_macro, sym_macro_ref, sym_include,
  sym_comment, sym_mark, sym_label, sym_label_ref, sym_opcode, sym_number, sym_text, Sym,
  ReportType, report_error, report_warning, Report, DeferredInclude, Asm, Outcome, done, failed,
  stuck, Act, followed, ◌>>=◌, ◌>>◌, pure, fail, starve, gets, modify, attempt, when,
}
use buxn.Asm.Report.{
  report, set_failed, error_ex, error, error2, warning, no_pos, file_region, put_symbol,
  put_symbol2,
}

abbrev pub max_token_len : ℕ
max_token_len = 47

abbrev pub max_long_string_len : ℕ
max_long_string_len = 1024

-- `fgetc` on the file of the unit; a macro has no file.
abbrev pub fgetc_of : AsmUnit → Input × AsmUnit
fgetc_of (file_unit (ch ∷ rest) path pos) = (ch, file_unit rest path pos)
fgetc_of (file_unit [] path pos) = (io_eof, file_unit [] path pos)
fgetc_of u = (io_eof, u)

unfoldable pub fgetc : Act Input
fgetc a = let r = fgetc_of a.current in (done r.0, record a { current = r.1 })

abbrev path_of : AsmUnit → Text
path_of (file_unit rest path pos) = path
path_of u = []

abbrev pub pos_of : AsmUnit → FilePos
pos_of (file_unit rest path pos) = pos
pos_of u = no_pos

abbrev pub set_pos : FilePos → AsmUnit → AsmUnit
set_pos pos (file_unit rest path old) = file_unit rest path pos
set_pos pos u = u

unfoldable pub unit_path : Act Text
unit_path = gets λ a. path_of a.current

unfoldable pub unit_pos : Act FilePos
unit_pos = gets λ a. pos_of a.current

unfoldable pub move_pos : (FilePos → FilePos) → Act (Unit {0})
move_pos f = modify λ a. record a { current = set_pos (f (pos_of a.current)) a.current }

unfoldable pub set_read_buf : Option Input → Act (Unit {0})
set_read_buf buf = modify λ a. record a { read_buf = buf }

-- What is given for a character that was just read: after an error, the result 0 of the report.
abbrev pub peeked : Input → Act Input
peeked io_error = do
  path ← unit_path
  reported ← attempt (error_ex {A = Unit {0}} "I/O error" (file_region path) none)
  pure (char 0)
peeked ch = pure ch

unfoldable pub peek_buf : Option Input → Act Input
unfolding fgetc unit_path set_read_buf
peek_buf (some ch) = pure ch
peek_buf none = do ch ← fgetc; set_read_buf (some ch); peeked ch

unfoldable pub peek_char : Act Input
unfolding peek_buf
peek_char = gets (λ a. a.read_buf) >>= peek_buf

unfoldable pub consume_char : Act (Unit {0})
unfolding set_read_buf
consume_char = set_read_buf none

abbrev pub next_col : FilePos → FilePos
next_col p = record p { byte = p.byte + 1; col = p.col + 1 }

abbrev pub next_line : FilePos → FilePos
next_line p = record p { line = p.line + 1; col = 1 }

abbrev pub is_input : ℕ → Input → Bool
is_input c (char ch) = ch == c
is_input c _ = false

-- The end of a line: what follows a carriage return is given, and consumed if it is a line feed.
unfoldable pub carriage_return : Act Input
unfolding peek_char consume_char move_pos
carriage_return = do
  next_ch ← peek_char
  when (is_input 10 next_ch) consume_char
  move_pos next_line
  pure next_ch

unfoldable pub got_char : Input → Act Input
unfolding carriage_return move_pos
got_char io_eof = pure io_eof
got_char io_error = pure io_error
got_char (char ch) =
    if ch == 10
    then move_pos next_line >> pure (char ch)
    else if ch == 13
    then carriage_return
    else pure (char ch)

unfoldable pub get_char : Act Input
unfolding peek_char consume_char move_pos got_char
get_char = do ch ← peek_char; consume_char; move_pos next_col; got_char ch

abbrev region_of : Text → FilePos → FilePos → Region
region_of path start stop = record { filename = path; start = start; stop = stop }

-- What follows a character in a token, and in a long string.
abbrev pub regular_next : (ℕ → FilePos → FilePos → Act Token) → Text → Region → Input → Act Token
regular_next more lexeme region io_error = fail
regular_next more lexeme region io_eof = pure record { lexeme = lexeme; region = region }
regular_next more lexeme region (char c) =
    if is_sep c
    then pure record { lexeme = lexeme; region = region }
    else more c region.start region.stop

abbrev pub long_next : (ℕ → Region → Act Token) → Text → Region → Input → Act Token
long_next more lexeme region io_error = fail
long_next more lexeme region io_eof = error_ex "Unterminated long string" region none
long_next more lexeme region (char c) =
    if c == 34 then pure record { lexeme = lexeme; region = region } else more c region

-- The loop of `buxn_asm_scan_regular_token`, with the characters in the buffer before `ch`; `room`
-- is how many the token may still hold.
unfoldable pub scan_regular : (room : ℕ) → Text → ℕ → FilePos → FilePos → Act Token
unfolding get_char unit_path unit_pos
scan_regular zero buf ch start stop = do
  path ← unit_path
  error_ex "Token is too long" (region_of path start stop) none
scan_regular (suc room) buf ch start stop =
    let more = scan_regular room (buf ++ ch ∷ []) in
    do
      path ← unit_path
      end ← unit_pos
      next ← get_char
      regular_next more (buf ++ ch ∷ []) (region_of path start end) next

abbrev scan_regular_token : ℕ → FilePos → Act Token
scan_regular_token ch start = scan_regular max_token_len [] ch start start

-- One round of the loop of `buxn_asm_scan_long_string`; `more` is what it does with a character.
unfoldable pub long_round : (ℕ → Region → Act Token) → Text → FilePos → Act Token
unfolding get_char unit_path unit_pos
long_round more buf start = do
  path ← unit_path
  end ← unit_pos
  next ← get_char
  long_next more buf (region_of path start end) next

unfoldable pub scan_long : (room : ℕ) → Text → FilePos → Act Token
unfolding long_round
scan_long zero buf start =
    long_round (λ c region. error_ex "String is too long" region none) buf start
scan_long (suc room) buf start =
    long_round (λ c region. scan_long room (buf ++ c ∷ []) start) buf start

-- The space behind the quote is consumed, and the quote is kept.
unfoldable pub scan_long_string : FilePos → Act Token
unfolding scan_long get_char
scan_long_string start = get_char >> scan_long (max_long_string_len - 1) (34 ∷ []) start

-- A quote: a long string if a space follows.
unfoldable pub scan_quote : FilePos → Act Token
unfolding scan_long_string scan_regular peek_char
scan_quote pos = do
  next_ch ← peek_char
  if is_input 32 next_ch then scan_long_string pos else scan_regular_token 34 pos

-- The token that starts at a character.
unfoldable pub scan_token : ℕ → FilePos → Act Token
unfolding scan_quote scan_regular
scan_token c pos = if c == 34 then scan_quote pos else scan_regular_token c pos

-- The separators before a token, as many as there is fuel for.
abbrev pub skip_next : Act Token → FilePos → Input → Act Token
skip_next more pos io_error = fail
skip_next more pos io_eof = fail
skip_next more pos (char c) = if is_sep c then more else scan_token c pos

unfoldable pub next_token_in_file : (fuel : ℕ) → Act Token
unfolding scan_token get_char unit_pos
next_token_in_file zero = starve
next_token_in_file (suc fuel) =
    let more = next_token_in_file fuel in do pos ← unit_pos; ch ← get_char; skip_next more pos ch
