-- ===== src/Text/Words.antt =====
-- Words and what stands between them.
use lwproxy.Base.{
  all, ℕ, ◌+◌, ◌*◌, ◌-◌, append-nil, ◌<◌, ◌^◌, ◌≡◌, refl, ap, Bool, true, false, [], ◌∷◌, ◌++◌,
  some, arith, Bytes, All,
}
use lwproxy.Text.{pieces, non_empty, words_by, text_eq, parse_u16, u16_digits, unsigned}

pub text_eq→eq : (a b : Bytes) → text_eq a b ≡ true → a ≡ b
text_eq→eq [] [] h = refl
text_eq→eq [] (y ∷ b) h = cc
text_eq→eq (x ∷ a) [] h = cc
text_eq→eq (x ∷ a) (y ∷ b) h = ground (arith, text_eq→eq a b)

pub text_eq_refl : (a : Bytes) → text_eq a a ≡ true
text_eq_refl [] = refl
text_eq_refl (x ∷ a) = ground (arith, text_eq_refl a)

pub all-append :
    (p : ℕ → Bool) (a b : Bytes) → all p a ≡ true → all p b ≡ true → all p (a ++ b) ≡ true
all-append p [] b h k = k
all-append p (x ∷ a) b h k = ground (arith, all-append p a b)

-- A text without separators.
abbrev pub IsWord : (ℕ → Bool) → Bytes → Type 0
IsWord sep w = All (λ c. sep c ≡ false) w

module _ (sep : ℕ → Bool) where
  pieces-word :
      (w rest : Bytes)
      → IsWord sep w
      → pieces sep (w ++ rest) ≡ (w ++ (pieces sep rest).0, (pieces sep rest).1)
  unfolding pieces
  pieces-word [] rest h = refl
  pieces-word (c ∷ w) rest h = ground (arith, pieces-word w rest h.1)

  pieces-sep :
      (c : ℕ) (rest : Bytes)
      → sep c ≡ true
      → pieces sep (c ∷ rest) ≡ ([], (pieces sep rest).0 ∷ (pieces sep rest).1)
  unfolding pieces
  pieces-sep c rest h = ground arith

  word_alone : (w : Bytes) → IsWord sep w → pieces sep w ≡ (w, [])
  unfolding pieces
  word_alone [] h = refl
  word_alone (c ∷ w) h = ground (arith, word_alone w h.1)

  -- A word, a separator and a rest: the word, and the words of the rest.
  pub words_by-cons :
      (b c : ℕ) (w rest : Bytes)
      → IsWord sep (b ∷ w)
      → sep c ≡ true
      → words_by sep (b ∷ w ++ (c ∷ rest)) ≡ (b ∷ w) ∷ words_by sep rest
  words_by-cons b c w rest h s =
      rw (pieces-word (b ∷ w) (c ∷ rest) h, pieces-sep c rest s, append-nil)

  pub words_by-word : (b : ℕ) (w : Bytes) → IsWord sep (b ∷ w) → words_by sep (b ∷ w) ≡ (b ∷ w) ∷ []
  words_by-word b w h = ap (λ p. non_empty (p.0 ∷ p.1)) whole
    where
      whole : pieces sep (b ∷ w) ≡ (b ∷ w, [])
      whole = word_alone (b ∷ w) h

u16_digits-lt :
    (acc : ℕ) (s : Bytes) {n : ℕ} → acc < 2 ^ 16 → u16_digits acc s ≡ some n → n < 2 ^ 16
unfolding u16_digits
u16_digits-lt acc [] h e = ground arith
u16_digits-lt acc (c ∷ s) {n} h e = ground (arith, u16_digits-lt (acc * 10 + (c - b'0')) s {n = n})

unsigned-lt : (s : Bytes) (n : ℕ) → unsigned s ≡ some n → n < 2 ^ 16
unsigned-lt [] n e = cc
unsigned-lt (c ∷ s) n e = u16_digits-lt 0 (c ∷ s) (omega arith) e

-- A number that was read has 16 bits.
pub parse_u16-lt : (s : Bytes) (n : ℕ) → parse_u16 s ≡ some n → n < 2 ^ 16
unfolding parse_u16
parse_u16-lt [] n e = cc
parse_u16-lt (c ∷ s) n e = ground (arith, unsigned-lt s n, unsigned-lt (c ∷ s) n)
