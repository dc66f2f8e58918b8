-- ===== src/Asm/Text.antt =====
-- src/asm/asm.c: the strings of the assembler and the tests on its characters.
use buxn.Prelude.{◌||◌, ◌&&◌, true, false, ◌==◌, if◌then◌else◌, leb, ℕ, Bool, List, [], ◌∷◌}

-- A character is the byte that it is stored in.
abbrev pub Text : Type 0
Text = List ℕ

abbrev pub text_eq : Text → Text → Bool
text_eq [] [] = true
text_eq (c ∷ s) (d ∷ t) = (c == d) && text_eq s t
text_eq _ _ = false

-- Whether a string is the one character.
abbrev pub is_only : ℕ → Text → Bool
is_only c (d ∷ []) = d == c
is_only c _ = false

unfoldable pub is_runic : ℕ → Bool
is_runic ch =
    (ch == b'{')
    || (ch == b'}')
    || (ch == b'[')
    || (ch == b']')
    || (ch == b'(')
    || (ch == b')')
    || (ch == b'|')
    || (ch == b'$')
    || (ch == b'#')
    || (ch == 34)
    || (ch == b'@')
    || (ch == b'&')
    || (ch == b'/')
    || (ch == b',')
    || (ch == b'_')
    || (ch == b'.')
    || (ch == b'-')
    || (ch == b';')
    || (ch == b'=')
    || (ch == b'!')
    || (ch == b'?')
    || (ch == b'%')
    || (ch == b'~')

unfoldable pub is_digit : ℕ → Bool
is_digit ch = leb b'0' ch && leb ch b'9'

unfoldable pub is_hex_letter : ℕ → Bool
is_hex_letter ch = leb b'a' ch && leb ch b'f'

unfoldable pub is_uppercased : ℕ → Bool
is_uppercased ch = leb b'A' ch && leb ch b'Z'

-- Space, line feed, tab, carriage return, form feed and vertical tab.
unfoldable pub is_sep : ℕ → Bool
is_sep ch = (ch == 32) || (ch == 10) || (ch == 9) || (ch == 13) || (ch == 12) || (ch == 11)

-- The loops over a string that return false at the first character that fails a test.
abbrev all_chars : (ℕ → Bool) → Text → Bool
all_chars test [] = true
all_chars test (c ∷ s) = test c && all_chars test s

-- The start index behind at most two plus signs, and what follows.
abbrev pub second_plus : Text → ℕ × Text
second_plus [] = (1, [])
second_plus (c ∷ s) = if c == b'+' then (2, s) else (1, c ∷ s)

abbrev pub skip_plus : Text → ℕ × Text
skip_plus [] = (0, [])
skip_plus (c ∷ s) = if c == b'+' then second_plus s else (0, c ∷ s)

unfoldable pub is_number : Text → Bool
unfolding is_digit is_hex_letter
is_number [] = false
is_number (c ∷ s) =
    let start = skip_plus (c ∷ s) in
    if start.0 == 0
    then all_chars (λ ch. is_digit ch || is_hex_letter ch) start.1
    else all_chars is_digit start.1

abbrev pub str_pop_front : Text → Text
str_pop_front [] = []
str_pop_front (c ∷ s) = s
