-- ===== src/Asm/Lexer/Ends.antt =====
-- src/asm/asm.c: reading a token from a file ends.
use Prim.Native.String.{String}
use buxn.Prelude.{
  ◌≢◌, ℕ, zero, suc, ◌+◌, ◌≤◌, ◌<◌, ◌≡◌, refl, ap, Bool, true, false, Option, none, some, [], ◌∷◌,
  arith, ◌==◌, if◌then◌else◌, Bool-cases, inl, inr, length,
}
use buxn.Asm.Text.{Text, is_sep}
use buxn.Asm.State.{
  FilePos, Region, Token, Input, char, io_eof, io_error, AsmUnit, file_unit, macro_unit, Asm,
  Outcome, done, failed, stuck, Act, followed, ◌>>=◌, pure, fail, gets, modify, attempt,
}
use buxn.Asm.Report.{report, set_failed, error_ex}
use buxn.Asm.Lexer.{
  max_token_len, scan_long_string, skip_next, scan_token, unit_pos, long_round, long_next,
  scan_regular, next_token_in_file, scan_long, regular_next, scan_quote, next_col, next_line,
  got_char, pos_of, get_char, is_input, move_pos, consume_char, set_pos, carriage_return, unit_path,
  set_read_buf, fgetc, peek_buf, peek_char,
}

-- What is left to read: the characters of the file, and one that is buffered.
abbrev rest_length : AsmUnit → ℕ
rest_length (file_unit rest path pos) = length rest
rest_length (macro_unit current argument) = 0

abbrev buffered : Option Input → ℕ
buffered none = 0
buffered (some ch) = 1

abbrev pub unread : Asm → ℕ
unread a = rest_length a.current + buffered a.read_buf

abbrev is_char : Input → Bool
is_char (char c) = true
is_char ch = false

-- The call gives an input, and a character only where at least one less is left in the file.
abbrev Gives : (Asm → ℕ) → Act Input → Asm → Type 0
Gives left m a =
    (ch : Input) × (b : Asm) × (m a ≡ (done ch, b)) × (is_char ch ≡ true → left b < unread a)

abbrev in_file : Asm → ℕ
in_file a = rest_length a.current

peek_at :
    (a : Asm) (buf : Option Input) (u : AsmUnit)
    → Gives in_file peek_char (record a { read_buf = buf; current = u })
unfolding peek_char peek_buf ◌>>=◌ gets fgetc set_read_buf modify pure attempt error_ex set_failed
    report fail unit_path
peek_at a (some ch) u = (ch, _, refl, λ h. omega arith)
peek_at a none (macro_unit current argument) = (io_eof, _, refl, λ h. absurd (ground (arith, h)))
peek_at a none (file_unit [] path pos) = (io_eof, _, refl, λ h. absurd (ground (arith, h)))
peek_at a none (file_unit (char c ∷ rest) path pos) = (char c, _, refl, λ h. omega arith)
peek_at a none (file_unit (io_eof ∷ rest) path pos) =
    (io_eof, _, refl, λ h. absurd (ground (arith, h)))
peek_at a none (file_unit (io_error ∷ rest) path pos) = (char 0, _, refl, λ h. omega arith)

peek_char-Gives : (a : Asm) → Gives in_file peek_char a
peek_char-Gives a = peek_at a a.read_buf a.current

rest_length-set_pos : (pos : FilePos) (u : AsmUnit) → rest_length (set_pos pos u) ≡ rest_length u
rest_length-set_pos pos (file_unit rest path old) = refl
rest_length-set_pos pos (macro_unit current argument) = refl

buffered-le : (buf : Option Input) → buffered buf ≤ 1
buffered-le none = omega arith
buffered-le (some ch) = omega arith

-- What moving the position leaves unread.
abbrev moved : (FilePos → FilePos) → Asm → Asm
moved f a = record a { current = set_pos (f (pos_of a.current)) a.current }

unread-moved : (f : FilePos → FilePos) (a : Asm) → unread (moved f a) ≤ rest_length a.current + 1
unread-moved f a =
    omega (arith, rest_length-set_pos (f (pos_of a.current)) a.current, buffered-le a.read_buf)

-- What follows a carriage return is given, and no more is left to read than before.
carriage_return-Gives :
    (a : Asm)
    → (ch : Input) × (b : Asm) × (carriage_return a ≡ (done ch, b))
      × (is_char ch ≡ true → unread b ≤ unread a)
unfolding carriage_return ◌>>=◌ consume_char set_read_buf modify pure move_pos
carriage_return-Gives a =
    let p = peek_char-Gives a in
    elim (Bool-cases (is_input 10 p.0)) [
      | inl e ↦
          let b = record (p.1) { read_buf = none } in
          (
            p.0,
            moved next_line b,
            rw (p.2, e) refl,
            λ h. omega (arith, p.3 h, unread-moved next_line b),
          )
      | inr e ↦ (
        p.0,
        moved next_line p.1,
        rw (p.2, e) refl,
        λ h. omega (arith, p.3 h, unread-moved next_line p.1),
      )
    ]

got_char-Gives :
    (c : ℕ) (a : Asm)
    → (ch : Input) × (b : Asm) × (got_char (char c) a ≡ (done ch, b))
      × (is_char ch ≡ true → unread b ≤ rest_length a.current + buffered a.read_buf)
unfolding got_char ◌>>=◌ modify pure move_pos
got_char-Gives c a = elim (Bool-cases (c == 10)) [
  | inl e ↦ (
    char c,
    moved next_line a,
    rw e refl,
    λ h. omega (arith, rest_length-set_pos (next_line (pos_of a.current)) a.current),
  )
  | inr e ↦ elim (Bool-cases (c == 13)) [
    | inl r ↦ let q = carriage_return-Gives a in (q.0, q.1, rw (e, r) q.2, q.3)
    | inr r ↦ (char c, a, rw (e, r) refl, λ h. omega arith)
  ]
]

got_any :
    (ch : Input) (a : Asm)
    → (got : Input) × (b : Asm) × (got_char ch a ≡ (done got, b))
      × (is_char got ≡ true → (is_char ch ≡ true) × (unread b ≤ unread a))
unfolding got_char pure
got_any io_eof a = (io_eof, a, refl, λ h. absurd (ground (arith, h)))
got_any io_error a = (io_error, a, refl, λ h. absurd (ground (arith, h)))
got_any (char c) a = let q = got_char-Gives c a in (q.0, q.1, q.2, λ h. (refl, q.3 h))

-- A character leaves less to read.
get_char-Gives : (a : Asm) → Gives unread get_char a
unfolding get_char ◌>>=◌ consume_char set_read_buf modify move_pos
get_char-Gives a =
    let p = peek_char-Gives a in
    let b = record (p.1) { read_buf = none } in
    let q = got_any p.0 (moved next_col b) in
    (
      q.0,
      q.1,
      rw p.2 q.2,
      λ h.
          let r = q.3 h in
          omega (arith, r.1, p.3 r.0, rest_length-set_pos (next_col (pos_of b.current)) b.current),
    )

-- The call ends: it does not want more fuel.
pub record Ends {A : Type 0} (m : Act A) : Type 0 where
  pub ends : (a : Asm) → (m a).0 ≢ stuck

module _ {A : Type 0} where
  Ends-pure : (x : A) → Ends (pure x)
  unfolding pure
  Ends-pure x = record { ends = λ a h. ground (arith, h) }

  Ends-fail : Ends (fail {A = A})
  unfolding fail
  Ends-fail = record { ends = λ a h. ground (arith, h) }

  Ends-gets : (f : Asm → A) → Ends (gets f)
  unfolding gets
  Ends-gets f = record { ends = λ a h. ground (arith, h) }

  Ends-if : (b : Bool) (m n : Act A) → Ends m → Ends n → Ends (if b then m else n)
  Ends-if true m n p q = p
  Ends-if false m n p q = q

  Ends-error_ex :
      (message : String) (region : Region) (related : Option (String × Region))
      → Ends (error_ex {A = A} message region related)
  unfolding error_ex set_failed report ◌>>=◌ modify fail
  Ends-error_ex message region related = record { ends = λ a h. ground (arith, h) }

followed-Ends :
    {A B : Type 0} (r : Outcome A × Asm) (f : A → Act B)
    → r.0 ≢ stuck
    → ((x : A) → Ends (f x))
    → (followed r f).0 ≢ stuck
followed-Ends (done x, b) f h q = (q x).ends b
followed-Ends (failed, b) f h q = λ e. ground (arith, e)
followed-Ends (stuck, b) f h q = λ e. h refl

Ends-bind :
    {A B : Type 0} (m : Act A) (f : A → Act B) → Ends m → ((x : A) → Ends (f x)) → Ends (m >>= f)
unfolding ◌>>=◌
Ends-bind m f p q = record { ends = λ a. followed-Ends (m a) f (p.ends a) q }

Ends-get_char : Ends get_char
Ends-get_char = record {
  ends = λ a h. let g = get_char-Gives a in ground (arith, ap (λ r. r.0) g.2, h);
}

Ends-peek_char : Ends peek_char
Ends-peek_char = record {
  ends = λ a h. let g = peek_char-Gives a in ground (arith, ap (λ r. r.0) g.2, h);
}

ruleset ends_rules = (Ends-bind, Ends-pure, Ends-fail, Ends-gets, Ends-if, Ends-error_ex)

Ends-unit_path : Ends unit_path
unfolding unit_path
Ends-unit_path = search ends_rules

Ends-unit_pos : Ends unit_pos
unfolding unit_pos
Ends-unit_pos = search ends_rules

ruleset scan_rules = (ends_rules, Ends-get_char, Ends-peek_char, Ends-unit_path, Ends-unit_pos)

Ends-regular_next :
    (more : ℕ → FilePos → FilePos → Act Token) (lexeme : Text) (region : Region) (ch : Input)
    → ((c : ℕ) (start stop : FilePos) → Ends (more c start stop))
    → Ends (regular_next more lexeme region ch)
Ends-regular_next more lexeme region io_error h = search ends_rules
Ends-regular_next more lexeme region io_eof h = search ends_rules
Ends-regular_next more lexeme region (char c) h = search (ends_rules, h)

Ends-scan_regular :
    (room : ℕ) (buf : Text) (ch : ℕ) (start stop : FilePos)
    → Ends (scan_regular room buf ch start stop)
unfolding scan_regular
Ends-scan_regular zero buf ch start stop = search scan_rules depth 8
Ends-scan_regular (suc room) buf ch start stop =
    search (scan_rules, Ends-regular_next, Ends-scan_regular room) depth 12

Ends-long_next :
    (more : ℕ → Region → Act Token) (lexeme : Text) (region : Region) (ch : Input)
    → ((c : ℕ) (r : Region) → Ends (more c r))
    → Ends (long_next more lexeme region ch)
Ends-long_next more lexeme region io_error h = search ends_rules
Ends-long_next more lexeme region io_eof h = search ends_rules
Ends-long_next more lexeme region (char c) h = search (ends_rules, h)

Ends-long_round :
    (more : ℕ → Region → Act Token) (buf : Text) (start : FilePos)
    → ((c : ℕ) (r : Region) → Ends (more c r))
    → Ends (long_round more buf start)
unfolding long_round
Ends-long_round more buf start h = search (scan_rules, Ends-long_next, h) depth 12

Ends-scan_long : (room : ℕ) (buf : Text) (start : FilePos) → Ends (scan_long room buf start)
unfolding scan_long
Ends-scan_long zero buf start = search (scan_rules, Ends-long_round) depth 8
Ends-scan_long (suc room) buf start =
    search (scan_rules, Ends-long_round, Ends-scan_long room) depth 8

Ends-scan_quote : (pos : FilePos) → Ends (scan_quote pos)
unfolding scan_quote scan_long_string
Ends-scan_quote pos = search (scan_rules, Ends-scan_long, Ends-scan_regular) depth 12

Ends-scan_token : (c : ℕ) (pos : FilePos) → Ends (scan_token c pos)
unfolding scan_token
Ends-scan_token c pos =
    Ends-if (c == 34) _ _ (Ends-scan_quote pos) (Ends-scan_regular max_token_len [] c pos pos)

skip_next-ends :
    (more : Act Token) (pos : FilePos) (ch : Input) (a : Asm)
    → (is_char ch ≡ true → (more a).0 ≢ stuck)
    → (skip_next more pos ch a).0 ≢ stuck
unfolding fail
skip_next-ends more pos io_error a h = λ e. ground (arith, e)
skip_next-ends more pos io_eof a h = λ e. ground (arith, e)
skip_next-ends more pos (char c) a h = elim (Bool-cases (is_sep c)) [
  | inl e ↦ rw e (h refl)
  | inr e ↦ rw e ((Ends-scan_token c pos).ends a)
]

-- Reading a token of a file ends, with a token or without, if there is more fuel than the file and
-- the buffer hold characters, whatever these are.
pub next_token_in_file-ends :
    (fuel : ℕ) (a : Asm) → unread a < fuel → (next_token_in_file fuel a).0 ≢ stuck
unfolding next_token_in_file ◌>>=◌ unit_pos gets
next_token_in_file-ends zero a h = λ e. ground (arith, h)
next_token_in_file-ends (suc fuel) a h =
    let g = get_char-Gives a in
    rw g.2 (
      skip_next-ends (next_token_in_file fuel) (pos_of a.current) g.0 g.1
        (λ c. next_token_in_file-ends fuel g.1 (omega (arith, g.3 c))))
