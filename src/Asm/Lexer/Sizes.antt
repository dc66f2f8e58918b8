-- ===== src/Asm/Lexer/Sizes.antt =====
-- src/asm/asm.c: the tokens fit their buffers.
use Prim.Native.String.{String}
use buxn.Prelude.{
  ℕ, zero, suc, ◌+◌, ◌-◌, ◌≤◌, ◌<◌, ◌≡◌, refl, sym, ap, ◌∙◌, Bool, true, false, ◌&&◌, Option, none,
  [], ◌∷◌, ◌++◌, arith, ltb, leb, ◌==◌, if◌then◌else◌, length,
}
use buxn.Asm.Text.{Text, is_sep}
use buxn.Asm.State.{
  FilePos, Region, Token, Input, char, io_eof, io_error, Asm, Outcome, done, failed, stuck, Act,
  followed, ◌>>=◌, pure, fail, starve, modify,
}
use buxn.Asm.Report.{report, set_failed, error_ex}
use buxn.Asm.Lexer.{
  is_input, scan_long_string, skip_next, next_token_in_file, long_next, scan_long, long_round,
  regular_next, max_token_len, max_long_string_len, scan_regular, scan_token, scan_quote,
}

-- A token that the buffer of the scanner holds: not empty, and short unless it is a long string.
abbrev starts_quoted : Text → Bool
starts_quoted [] = false
starts_quoted (c ∷ s) = c == 34

abbrev pub fits : Text → Bool
fits lexeme =
    ltb 0 (length lexeme)
    && leb (length lexeme) (if starts_quoted lexeme then max_long_string_len else max_token_len)

-- Each token that the call returns passes a test.
pub record Yields (p : Text → Bool) (m : Act Token) : Type 0 where
  pub yields : (a : Asm) (t : Token) → (m a).0 ≡ done t → p t.lexeme ≡ true

abbrev done_value : Token → Outcome Token → Token
done_value t (done u) = u
done_value t o = t

module _ (p : Text → Bool) where
  Yields-pure : (t : Token) → p t.lexeme ≡ true → Yields p (pure t)
  unfolding pure
  Yields-pure t h = record { yields = λ a u e. ap (λ o. p (done_value t o).lexeme) (sym e) ∙ h }

  Yields-fail : Yields p fail
  unfolding fail
  Yields-fail = record { yields = λ a t e. absurd (ground (arith, e)) }

  Yields-error_ex :
      (message : String) (region : Region) (related : Option (String × Region))
      → Yields p (error_ex message region related)
  unfolding error_ex set_failed report ◌>>=◌ modify fail
  Yields-error_ex message region related = record { yields = λ a t e. absurd (ground (arith, e)) }

  Yields-if : (b : Bool) (m n : Act Token) → Yields p m → Yields p n → Yields p (if b then m else n)
  Yields-if true m n h k = h
  Yields-if false m n h k = k

  followed-Yields :
      {A : Type 0} (r : Outcome A × Asm) (f : A → Act Token) (t : Token)
      → ((x : A) → Yields p (f x))
      → (followed r f).0 ≡ done t
      → p t.lexeme ≡ true
  followed-Yields (done x, b) f t h e = (h x).yields b t e
  followed-Yields (failed, b) f t h e = absurd (ground (arith, e))
  followed-Yields (stuck, b) f t h e = absurd (ground (arith, e))

  Yields-bind :
      {A : Type 0} (m : Act A) (f : A → Act Token) → ((x : A) → Yields p (f x)) → Yields p (m >>= f)
  unfolding ◌>>=◌
  Yields-bind m f h = record { yields = λ a t e. followed-Yields (m a) f t h e }

  Yields-starve : Yields p starve
  unfolding starve
  Yields-starve = record { yields = λ a t e. absurd (ground (arith, e)) }

length-snoc : (s : Text) (c : ℕ) → length (s ++ c ∷ []) ≡ suc (length s)
length-snoc [] c = refl
length-snoc (d ∷ s) c = ap suc (length-snoc s c)

short_fits : (s : Text) → 0 < length s → length s ≤ max_token_len → fits s ≡ true
short_fits [] h k = absurd (ground (arith, h))
short_fits (c ∷ s) h k = ground (arith, h, k)

Yields-regular_next :
    (more : ℕ → FilePos → FilePos → Act Token) (lexeme : Text) (region : Region) (ch : Input)
    → fits lexeme ≡ true
    → ((c : ℕ) (start stop : FilePos) → Yields fits (more c start stop))
    → Yields fits (regular_next more lexeme region ch)
Yields-regular_next more lexeme region io_error e h = Yields-fail fits
Yields-regular_next more lexeme region io_eof e h = Yields-pure fits _ e
Yields-regular_next more lexeme region (char c) e h =
    Yields-if fits (is_sep c) _ _ (Yields-pure fits _ e) (h c region.start region.stop)

Yields-scan_regular :
    (room : ℕ) (buf : Text) (ch : ℕ) (start stop : FilePos)
    → length buf + room ≡ max_token_len
    → Yields fits (scan_regular room buf ch start stop)
unfolding scan_regular
Yields-scan_regular zero buf ch start stop h =
    Yields-bind fits _ _ λ path. Yields-error_ex fits _ _ _
Yields-scan_regular (suc room) buf ch start stop h =
    let n = length-snoc buf ch in
    Yields-bind fits _ _ λ path. Yields-bind fits _ _ λ end. Yields-bind fits _ _ λ next.
      Yields-regular_next _ (buf ++ ch ∷ []) _ next
        (short_fits (buf ++ ch ∷ []) (omega (arith, n)) (omega (arith, n, h)))
        (λ c s e. Yields-scan_regular room (buf ++ ch ∷ []) c s e (omega (arith, n, h)))

-- The buffer of a long string holds the quote.
abbrev Quoted : Text → ℕ → Type 0
Quoted buf room = (starts_quoted buf ≡ true) × (length buf + room ≡ max_long_string_len)

long_fits : (s : Text) (room : ℕ) → Quoted s room → fits s ≡ true
long_fits [] room h = absurd (ground (arith, h.0))
long_fits (c ∷ s) room (q, h) = rw q (ground (arith, h))

Quoted-snoc : (s : Text) (c room : ℕ) → Quoted s (suc room) → Quoted (s ++ c ∷ []) room
Quoted-snoc [] c room h = absurd (ground (arith, h.0))
Quoted-snoc (d ∷ s) c room (q, h) = (q, omega (arith, length-snoc s c, h))

Yields-long_next :
    (more : ℕ → Region → Act Token) (buf : Text) (region : Region) (ch : Input)
    → fits buf ≡ true
    → ((c : ℕ) (r : Region) → Yields fits (more c r))
    → Yields fits (long_next more buf region ch)
Yields-long_next more buf region io_error e h = Yields-fail fits
Yields-long_next more buf region io_eof e h = Yields-error_ex fits _ _ _
Yields-long_next more buf region (char c) e h =
    Yields-if fits (c == 34) _ _ (Yields-pure fits _ e) (h c region)

Yields-long_round :
    (more : ℕ → Region → Act Token) (buf : Text) (start : FilePos)
    → fits buf ≡ true
    → ((c : ℕ) (r : Region) → Yields fits (more c r))
    → Yields fits (long_round more buf start)
unfolding long_round
Yields-long_round more buf start e h = Yields-bind fits _ _ λ path.
    Yields-bind fits _ _ λ end. Yields-bind fits _ _ λ next. Yields-long_next more buf _ next e h

Yields-scan_long :
    (room : ℕ) (buf : Text) (start : FilePos)
    → Quoted buf room
    → Yields fits (scan_long room buf start)
unfolding scan_long
Yields-scan_long zero buf start q =
    Yields-long_round (λ c region. error_ex "String is too long" region none) buf start
      (long_fits buf zero q) (λ c r. Yields-error_ex fits "String is too long" r none)
Yields-scan_long (suc room) buf start q =
    Yields-long_round (λ c region. scan_long room (buf ++ c ∷ []) start) buf start
      (long_fits buf (suc room) q)
      (λ c r. Yields-scan_long room (buf ++ c ∷ []) start (Quoted-snoc buf c room q))

Yields-scan_quote : (pos : FilePos) → Yields fits (scan_quote pos)
unfolding scan_quote scan_long_string
Yields-scan_quote pos = Yields-bind fits _ _ λ next.
    Yields-if fits (is_input 32 next) _ _
      (Yields-bind fits _ _
        λ space. Yields-scan_long (max_long_string_len - 1) (34 ∷ []) pos (refl, refl))
      (Yields-scan_regular max_token_len [] 34 pos pos refl)

Yields-skip_next :
    (more : Act Token) (pos : FilePos) (ch : Input)
    → Yields fits more
    → Yields fits (skip_next more pos ch)
unfolding scan_token
Yields-skip_next more pos io_error h = Yields-fail fits
Yields-skip_next more pos io_eof h = Yields-fail fits
Yields-skip_next more pos (char c) h = Yields-if fits (is_sep c) more _ h (
    Yields-if fits (c == 34) _ _ (Yields-scan_quote pos)
      (Yields-scan_regular max_token_len [] c pos pos refl))

Yields-next_token_in_file : (fuel : ℕ) → Yields fits (next_token_in_file fuel)
unfolding next_token_in_file
Yields-next_token_in_file zero = Yields-starve fits
Yields-next_token_in_file (suc fuel) = Yields-bind fits _ _ λ pos.
    Yields-bind fits _ _
      λ ch. Yields-skip_next (next_token_in_file fuel) pos ch (Yields-next_token_in_file fuel)

-- A token of a file is not empty, and fits its buffer: it has at most 47 characters, or 1024 if it
-- starts with a quote.
pub next_token_in_file-fits :
    (fuel : ℕ) (a : Asm) (token : Token)
    → (next_token_in_file fuel a).0 ≡ done token
    → fits token.lexeme ≡ true
next_token_in_file-fits fuel a token h = (Yields-next_token_in_file fuel).yields a token h
