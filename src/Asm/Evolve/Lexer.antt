-- ===== src/Asm/Evolve/Lexer.antt =====
-- src/asm/asm.c: the reports and the tokens leave the program as it is.
use Prim.Native.String.{String}
use buxn.Prelude.{ℕ, zero, suc, refl, sym, Option, none, some, List, [], ◌∷◌, ◌==◌}
use buxn.Asm.Text.{Text, is_sep}
use buxn.Asm.Evolve.{Good-bind, Good-if, Good, Evolves, Good-modify, good_rules}
use buxn.Asm.State.{
  FilePos, Region, Token, Input, char, io_eof, io_error, AsmUnit, file_unit, macro_unit, Sym, Act,
  ◌>>=◌, fail, modify,
}
use buxn.Asm.Report.{report, set_failed, error_ex, warning, put_symbol}
use buxn.Asm.Lexer.{
  max_token_len, fgetc_of, skip_next, consume_char, scan_long_string, long_round, carriage_return,
  get_char, scan_regular, set_read_buf, unit_pos, regular_next, got_char, unit_path, peeked,
  scan_long, peek_char, next_token_in_file, move_pos, scan_quote, long_next, peek_buf, fgetc,
  scan_token,
}
use buxn.Asm.Expand.{expanded_token, set_current, next_token_of, next_token}

module _ {A : Type 0} where
  pub Good-error_ex :
      (message : String) (region : Region) (related : Option (String × Region))
      → Good (error_ex {A = A} message region related)
  unfolding error_ex set_failed report ◌>>=◌ modify fail
  Good-error_ex message region related = record {
    evolves = λ a. record {
      zero_page = λ i h. refl;
      bytes = λ h. h;
      honest = λ h. refl;
      sticky = λ h. refl;
      depth = refl;
    };
  }

pub Good-warning : (token : Token) (message : String) → Good (warning token message)
unfolding warning report modify
Good-warning token message = record {
  evolves = λ a. record {
    zero_page = λ i h. refl;
    bytes = λ h. h;
    honest = λ h. h;
    sticky = λ h. h;
    depth = refl;
  };
}

pub Good-put_symbol : (addr : ℕ) (sym : Sym) → Good (put_symbol addr sym)
unfolding put_symbol
Good-put_symbol addr sym = Good-modify _ λ a. (refl, refl, refl, refl)

pub ruleset report_rules = (good_rules, Good-error_ex, Good-warning, Good-put_symbol)

pub Good-fgetc : Good fgetc
unfolding fgetc modify
Good-fgetc = record {
  evolves = λ a.
      (Good-modify (λ b. record b { current = (fgetc_of b.current).1 })
          (λ b. (refl, refl, refl, refl))).evolves
        a;
}

pub Good-move_pos : (f : FilePos → FilePos) → Good (move_pos f)
unfolding move_pos
Good-move_pos f = Good-modify _ λ a. (refl, refl, refl, refl)

pub Good-set_read_buf : (buf : Option Input) → Good (set_read_buf buf)
unfolding set_read_buf
Good-set_read_buf buf = Good-modify _ λ a. (refl, refl, refl, refl)

pub Good-unit_path : Good unit_path
unfolding unit_path
Good-unit_path = search good_rules

pub Good-unit_pos : Good unit_pos
unfolding unit_pos
Good-unit_pos = search good_rules

pub ruleset char_rules =
    (report_rules, Good-fgetc, Good-move_pos, Good-set_read_buf, Good-unit_path, Good-unit_pos)

Good-peeked : (ch : Input) → Good (peeked ch)
Good-peeked io_error = search char_rules depth 8
Good-peeked io_eof = search char_rules
Good-peeked (char c) = search char_rules

Good-peek_buf : (buf : Option Input) → Good (peek_buf buf)
unfolding peek_buf
Good-peek_buf none = search (char_rules, Good-peeked) depth 8
Good-peek_buf (some ch) = search char_rules

pub Good-peek_char : Good peek_char
unfolding peek_char
Good-peek_char = search (char_rules, Good-peek_buf) depth 8

Good-carriage_return : Good carriage_return
unfolding carriage_return consume_char
Good-carriage_return = search (char_rules, Good-peek_char) depth 12

Good-got_char : (ch : Input) → Good (got_char ch)
unfolding got_char
Good-got_char io_eof = search char_rules
Good-got_char io_error = search char_rules
Good-got_char (char c) = search (char_rules, Good-carriage_return) depth 8

pub Good-get_char : Good get_char
unfolding get_char consume_char
Good-get_char = search (char_rules, Good-peek_char, Good-got_char) depth 12

pub ruleset scan_rules = (char_rules, Good-peek_char, Good-get_char)

Good-regular_next :
    (more : ℕ → FilePos → FilePos → Act Token) (lexeme : Text) (region : Region) (ch : Input)
    → ((c : ℕ) (start stop : FilePos) → Good (more c start stop))
    → Good (regular_next more lexeme region ch)
Good-regular_next more lexeme region io_error h = search good_rules
Good-regular_next more lexeme region io_eof h = search good_rules
Good-regular_next more lexeme region (char c) h = search (good_rules, h)

Good-scan_regular :
    (room : ℕ) (buf : Text) (ch : ℕ) (start stop : FilePos)
    → Good (scan_regular room buf ch start stop)
unfolding scan_regular
Good-scan_regular zero buf ch start stop = search scan_rules depth 8
Good-scan_regular (suc room) buf ch start stop =
    search (scan_rules, Good-regular_next, Good-scan_regular room) depth 12

Good-long_next :
    (more : ℕ → Region → Act Token) (lexeme : Text) (region : Region) (ch : Input)
    → ((c : ℕ) (r : Region) → Good (more c r))
    → Good (long_next more lexeme region ch)
Good-long_next more lexeme region io_error h = search good_rules
Good-long_next more lexeme region io_eof h = search report_rules
Good-long_next more lexeme region (char c) h = search (good_rules, h)

Good-long_round :
    (more : ℕ → Region → Act Token) (buf : Text) (start : FilePos)
    → ((c : ℕ) (r : Region) → Good (more c r))
    → Good (long_round more buf start)
unfolding long_round
Good-long_round more buf start h = search (scan_rules, Good-long_next, h) depth 12

Good-scan_long : (room : ℕ) (buf : Text) (start : FilePos) → Good (scan_long room buf start)
unfolding scan_long
Good-scan_long zero buf start = search (scan_rules, Good-long_round) depth 8
Good-scan_long (suc room) buf start =
    search (scan_rules, Good-long_round, Good-scan_long room) depth 8

Good-scan_quote : (pos : FilePos) → Good (scan_quote pos)
unfolding scan_quote scan_long_string
Good-scan_quote pos = search (scan_rules, Good-scan_long, Good-scan_regular) depth 12

Good-scan_token : (c : ℕ) (pos : FilePos) → Good (scan_token c pos)
unfolding scan_token
Good-scan_token c pos =
    Good-if (c == 34) _ _ (Good-scan_quote pos) (Good-scan_regular max_token_len [] c pos pos)

Good-skip_next :
    (more : Act Token) (pos : FilePos) (ch : Input) → Good more → Good (skip_next more pos ch)
Good-skip_next more pos io_error h = search good_rules
Good-skip_next more pos io_eof h = search good_rules
Good-skip_next more pos (char c) h =
    Good-if (is_sep c) more (scan_token c pos) h (Good-scan_token c pos)

Good-next_token_in_file : (fuel : ℕ) → Good (next_token_in_file fuel)
unfolding next_token_in_file
Good-next_token_in_file zero = search good_rules
Good-next_token_in_file (suc fuel) = Good-bind _ _ Good-unit_pos λ pos.
    Good-bind _ _ Good-get_char
      λ ch. Good-skip_next (next_token_in_file fuel) pos ch (Good-next_token_in_file fuel)

Good-set_current : (rest : List Token) → Good (set_current rest)
unfolding set_current
Good-set_current rest = Good-modify _ λ a. (refl, refl, refl, refl)

Good-expanded_token :
    (template : Token) (rest : List Token) (lexeme : Option Text)
    → Good (expanded_token template rest lexeme)
Good-expanded_token template rest none = search report_rules
Good-expanded_token template rest (some lexeme) = search (good_rules, Good-set_current)

Good-next_token_of : (fuel : ℕ) (u : AsmUnit) → Good (next_token_of fuel u)
Good-next_token_of fuel (file_unit rest path pos) = Good-next_token_in_file fuel
Good-next_token_of fuel (macro_unit [] argument) = search good_rules
Good-next_token_of fuel (macro_unit (template ∷ rest) argument) =
    Good-expanded_token template rest _

pub Good-next_token : (fuel : ℕ) → Good (next_token fuel)
unfolding next_token
Good-next_token fuel = search (good_rules, Good-next_token_of)
