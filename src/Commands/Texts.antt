-- ===== src/Commands/Texts.antt =====
-- src/service/commands.rs: the text of BIND, and how it is read.
use lwproxy.Base.{
  ℕ, ◌+◌, ◌*◌, ◌-◌, ◌≤◌, ◌<◌, ◌≡◌, refl, ◌∙◌, ap, Bool, true, not, ◌&&◌, [], ◌∷◌, ◌++◌, Option,
  some, Bytes, all, arith, length, ltb, leb, length-append,
}
use lwproxy.Result.{ok}
use lwproxy.Text.{is_ascii, is_whitespace, split_whitespace, parse_u16, u16_digits}
use lwproxy.Text.Words.{all-append, IsWord, words_by-cons, words_by-word}
use lwproxy.Code.{Rng, Passcode, codes, to_text, contains_byte, passcode_alphabet, parse}
use lwproxy.Code.Passcodes.{IsWellFormed, parse-IsWellFormed}
use lwproxy.Translate.{Sender}
use lwproxy.Commands.{Circumstances, World, bind, handle_command}
use lwproxy.Commands.Cases.{one}

abbrev pub bind_command : Passcode → Bytes → Bytes
bind_command p port_text = codes "BIND " ++ (to_text p ++ (b' ' ∷ (codes "UDP " ++ port_text)))

-- What stands in a word of ASCII.
abbrev is_plain : ℕ → Bool
is_plain c = ltb c 128 && not (is_whitespace c)

member_plain :
    (xs : Bytes) (b : ℕ) → all is_plain xs ≡ true → contains_byte xs b ≡ true → is_plain b ≡ true
member_plain [] b h e = cc
member_plain (x ∷ xs) b h e = ground (arith, member_plain xs b)

passcode-IsPlain :
    (text : Bytes) → all (contains_byte passcode_alphabet) text ≡ true → all is_plain text ≡ true
passcode-IsPlain [] h = refl
passcode-IsPlain (c ∷ text) h =
    ground (arith, member_plain passcode_alphabet c refl, passcode-IsPlain text)

u16_digits-plain : (acc : ℕ) (s : Bytes) (n : ℕ) → u16_digits acc s ≡ some n → all is_plain s ≡ true
unfolding u16_digits
u16_digits-plain acc [] n h = refl
u16_digits-plain acc (c ∷ s) n h = ground (arith, u16_digits-plain (acc * 10 + (c - b'0')) s n)

parse_u16-plain : (s : Bytes) (n : ℕ) → parse_u16 s ≡ some n → all is_plain s ≡ true
unfolding parse_u16
parse_u16-plain [] n h = cc
parse_u16-plain (c ∷ []) n h = ground (arith, u16_digits-plain 0 (c ∷ []) n)
parse_u16-plain (c ∷ d ∷ s) n h =
    ground (arith, u16_digits-plain 0 (d ∷ s) n, u16_digits-plain 0 (c ∷ d ∷ s) n)

plain-IsWord : (s : Bytes) → all is_plain s ≡ true → IsWord is_whitespace s
plain-IsWord [] h = tt
plain-IsWord (c ∷ s) h = (ground arith, plain-IsWord s (ground arith))

plain-ascii : (s : Bytes) → all is_plain s ≡ true → is_ascii s ≡ true
plain-ascii [] h = refl
plain-ascii (c ∷ s) h = ground (arith, plain-ascii s)

words-bind :
    (b d : ℕ) (code text : Bytes)
    → IsWord is_whitespace (b ∷ code)
    → IsWord is_whitespace (d ∷ text)
    → split_whitespace (codes "BIND " ++ (b ∷ code ++ (b' ' ∷ (codes "UDP " ++ (d ∷ text)))))
      ≡ codes "BIND" ∷ (b ∷ code) ∷ codes "UDP" ∷ (d ∷ text) ∷ []
words-bind b d code text h k =
    words_by-cons is_whitespace b'B' b' ' (codes "IND") _ (refl, (refl, (refl, (refl, tt)))) refl
    ∙ ap (◌∷◌ (codes "BIND")) (
        words_by-cons is_whitespace b b' ' code _ h refl
        ∙ ap (◌∷◌ (b ∷ code)) (
            words_by-cons is_whitespace b'U' b' ' (codes "DP") _ (refl, (refl, (refl, tt))) refl
            ∙ ap (◌∷◌ (codes "UDP")) (words_by-word is_whitespace d text k)))

first-cases : (xs : Bytes) → 0 < length xs → (b : ℕ) × (rest : Bytes) × (xs ≡ b ∷ rest)
first-cases [] h = absurd (omega arith)
first-cases (b ∷ rest) h = (b, rest, refl)

u16-nonempty : (s : Bytes) (n : ℕ) → parse_u16 s ≡ some n → 0 < length s
unfolding parse_u16
u16-nonempty [] n h = cc
u16-nonempty (c ∷ s) n h = omega arith

-- The passcode and the port stand in words of their own, and come back as they were.
module _ (p : Passcode) (port_text : Bytes) (port : ℕ) (back : parse (to_text p) ≡ ok p)
    (reads : parse_u16 port_text ≡ some port) where
  port-plain : all is_plain port_text ≡ true
  port-plain = parse_u16-plain port_text port reads

  code-IsWellFormed : IsWellFormed (to_text p)
  code-IsWellFormed = ((parse-IsWellFormed (to_text p) p).0 back).0

  code-plain : all is_plain (to_text p) ≡ true
  code-plain = passcode-IsPlain (to_text p) code-IsWellFormed.1

  bind_command-split :
      split_whitespace (bind_command p port_text)
      ≡ codes "BIND" ∷ to_text p ∷ codes "UDP" ∷ port_text ∷ []
  bind_command-split =
      let (b, code, e) = first-cases (to_text p) (omega (arith, code-IsWellFormed.0)) in
      let (d, text, f) = first-cases port_text (u16-nonempty port_text port reads) in
      rw (e, f)
        (words-bind b d code text (rw e at (plain-IsWord (to_text p) code-plain))
          (rw f at (plain-IsWord port_text port-plain)))

  bind_command-ascii : is_ascii (bind_command p port_text) ≡ true
  bind_command-ascii =
      all-append (λ c. ltb c 128) (to_text p) (b' ' ∷ (codes "UDP " ++ port_text))
        (plain-ascii (to_text p) code-plain) (plain-ascii port_text port-plain)

  bind_command-length : length (bind_command p port_text) ≡ 26 + length port_text
  bind_command-length =
      omega
        (arith, length-append (to_text p) (b' ' ∷ (codes "UDP " ++ port_text)), code-IsWellFormed.0)

  -- The command leads to its branch, with the words as they are.
  pub handle_command-bind :
      {S : Type 0} (rng : Rng S) (c : Circumstances) (w : World S) (relay_tx : Option Sender)
      → length port_text ≤ 229
      → handle_command rng c w relay_tx (bind_command p port_text)
        ≡ one (bind c w relay_tx (to_text p ∷ codes "UDP" ∷ port_text ∷ []))
  unfolding handle_command
  handle_command-bind rng c w relay_tx short =
      rw (bind_command-ascii, bind_command-short, bind_command-split) refl
    where
      bind_command-short : leb (length (bind_command p port_text)) 255 ≡ true
      bind_command-short = ground (arith, bind_command-length)
