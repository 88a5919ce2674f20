-- ===== src/Text.antt =====
-- What the program uses of `str` and `[u8]`, on ASCII text: a text is the list of its bytes.
pub mod Words
use mathlib.Core.Option
use lwproxy.Base.{
  is_some, is_empty, ℕ, zero, suc, ◌+◌, ◌-◌, ◌*◌, ◌^◌, ◌≡◌, refl, Bool, true, false, ◌&&◌, ◌||◌,
  List, [], ◌∷◌, ◌++◌, Option, none, some, ltb, leb, ◌==◌, if◌then◌else◌, all, Bytes, length, arith,
}

-- `[u8]::is_ascii`
abbrev pub is_ascii : Bytes → Bool
is_ascii = all (λ c. ltb c 128)

-- `char::is_whitespace`, of an ASCII character.
abbrev pub is_whitespace : ℕ → Bool
is_whitespace c = (leb 9 c && leb c 13) || c == 32

-- `u8::is_ascii_whitespace`, which leaves out the vertical tab.
abbrev pub is_ascii_whitespace : ℕ → Bool
is_ascii_whitespace c = c == 9 || c == 10 || c == 12 || c == 13 || c == 32

abbrev pub text_eq : Bytes → Bytes → Bool
text_eq [] [] = true
text_eq (x ∷ xs) (y ∷ ys) = x == y && text_eq xs ys
text_eq _ _ = false

abbrev pub contains_text : List Bytes → Bytes → Bool
contains_text [] t = false
contains_text (x ∷ xs) t = text_eq x t || contains_text xs t

-- The piece before the first separator, and the pieces after it.
unfoldable pub pieces : (ℕ → Bool) → Bytes → Bytes × List Bytes
pieces sep [] = ([], [])
pieces sep (c ∷ cs) = let (w, ws) = pieces sep cs in if sep c then ([], w ∷ ws) else (c ∷ w, ws)

abbrev pub non_empty : List Bytes → List Bytes
non_empty [] = []
non_empty ([] ∷ ws) = non_empty ws
non_empty ((c ∷ w) ∷ ws) = (c ∷ w) ∷ non_empty ws

-- `str::split`, by a character.
abbrev pub split_char : ℕ → Bytes → List Bytes
split_char sep s = let (w, ws) = pieces (λ c. c == sep) s in w ∷ ws

-- `str::split_whitespace`, `str::split_ascii_whitespace`
abbrev pub words_by : (ℕ → Bool) → Bytes → List Bytes
words_by sep s = let (w, ws) = pieces sep s in non_empty (w ∷ ws)

abbrev pub split_whitespace : Bytes → List Bytes
split_whitespace = words_by is_whitespace

abbrev pub split_ascii_whitespace : Bytes → List Bytes
split_ascii_whitespace = words_by is_ascii_whitespace

abbrev pub is_digit : ℕ → Bool
is_digit c = leb b'0' c && leb c b'9'

-- `u16::from_str` behind the sign.
unfoldable pub u16_digits : ℕ → Bytes → Option ℕ
u16_digits acc [] = some acc
u16_digits acc (c ∷ cs) =
    let rest = u16_digits (acc * 10 + (c - b'0')) cs in
    if is_digit c && ltb (acc * 10 + (c - b'0')) (2 ^ 16) then rest else none

abbrev pub unsigned : Bytes → Option ℕ
unsigned [] = none
unsigned (c ∷ cs) = u16_digits 0 (c ∷ cs)

-- `u16::from_str`: digits with an optional `+`, below 65536.
unfoldable pub parse_u16 : Bytes → Option ℕ
unfolding u16_digits
parse_u16 [] = none
parse_u16 (c ∷ cs) = if c == b'+' then unsigned cs else unsigned (c ∷ cs)

-- `slice::strip_prefix`
abbrev pub strip_prefix : Bytes → Bytes → Option Bytes
strip_prefix [] s = some s
strip_prefix (p ∷ ps) [] = none
strip_prefix (p ∷ ps) (c ∷ s) = if p == c then strip_prefix ps s else none

-- `s.windows(n).position(|w| w == pattern)`, for a pattern of n > 0 bytes.
unfoldable pub position_of : Bytes → Bytes → Option ℕ
position_of pattern [] = none
position_of pattern (c ∷ s) =
    let later = Option.map suc (position_of pattern s) in
    if is_some (strip_prefix pattern (c ∷ s)) then some 0 else later

-- `str::strip_suffix`, of a carriage return.
abbrev pub strip_cr : Bytes → Bytes
strip_cr [] = []
strip_cr (c ∷ []) = if c == 13 then [] else c ∷ []
strip_cr (c ∷ d ∷ s) = c ∷ strip_cr (d ∷ s)

-- The first of `str::lines`: a carriage return is part of the end of a line only before a newline.
abbrev pub first_line : Bytes → Option Bytes
first_line [] = none
first_line (c ∷ s) =
    let (w, ws) = pieces (λ b. b == 10) (c ∷ s) in some (if is_empty ws then w else strip_cr w)
