-- ===== src/Code/Passcodes.antt =====
-- Passcodes: what is issued can be typed back, and nothing else of that shape is refused.
use mathlib.Core.Path.{subst}
use lwproxy.Base.{
  Bool, sym, ℕ, zero, suc, ◌+◌, ◌<◌, ◌≤◌, ◌++◌, ◌||◌, ◌⊎◌, All, ◌≡◌, refl, ◌↔◌, [], ◌∷◌, true, some,
  arith, all, length, get_elem?, Bytes,
}
use lwproxy.Result.{ok}
use lwproxy.Code.{
  Rng, Passcode, passcode_alphabet, passcode_len, contains_byte, to_text, parse, new, random_code,
}

abbrev pub IsWellFormed : Bytes → Type 0
IsWellFormed text =
    (length text ≡ passcode_len) × (all (contains_byte passcode_alphabet) text ≡ true)

pub parse-IsWellFormed :
    (text : Bytes) (p : Passcode) → (parse text ≡ ok p) ↔ (IsWellFormed text × (to_text p ≡ text))
unfolding parse
parse-IsWellFormed text p = ground arith

-- A letter or a digit, in ASCII.
abbrev pub IsAlphanumeric : ℕ → Type 0
IsAlphanumeric b = ((65 ≤ b) × (b < 91)) ⊎ (((97 ≤ b) × (b < 123)) ⊎ ((48 ≤ b) × (b < 58)))

codes_from : ℕ → ℕ → Bytes
codes_from a zero = []
codes_from a (suc n) = a ∷ codes_from (suc a) n

contains_byte-codes_from :
    (a n b : ℕ) → (contains_byte (codes_from a n) b ≡ true) ↔ ((a ≤ b) × (b < a + n))
unfolding codes_from
contains_byte-codes_from a zero b = ground arith
contains_byte-codes_from a (suc n) b = ground (arith, contains_byte-codes_from (suc a) n b)

contains_byte-append :
    (xs ys : Bytes) (b : ℕ)
    → contains_byte (xs ++ ys) b ≡ (contains_byte xs b || contains_byte ys b)
contains_byte-append [] ys b = refl
contains_byte-append (x ∷ xs) ys b = ground (arith, contains_byte-append xs ys b)

alphabet-codes_from : passcode_alphabet ≡ codes_from 65 26 ++ (codes_from 97 26 ++ codes_from 48 10)
unfolding codes_from
alphabet-codes_from = refl

contains_byte-either :
    (xs ys zs : Bytes) (b : ℕ)
    → (contains_byte (xs ++ (ys ++ zs)) b ≡ true)
      ↔ ((contains_byte xs b ≡ true) ⊎ ((contains_byte ys b ≡ true) ⊎ (contains_byte zs b ≡ true)))
contains_byte-either xs ys zs b =
    ground (arith, contains_byte-append xs (ys ++ zs) b, contains_byte-append ys zs b)

ranges-IsAlphanumeric :
    (xs ys zs : Bytes) (b : ℕ)
    → ((contains_byte xs b ≡ true) ↔ ((65 ≤ b) × (b < 91)))
    → ((contains_byte ys b ≡ true) ↔ ((97 ≤ b) × (b < 123)))
    → ((contains_byte zs b ≡ true) ↔ ((48 ≤ b) × (b < 58)))
    → (contains_byte (xs ++ (ys ++ zs)) b ≡ true) ↔ IsAlphanumeric b
ranges-IsAlphanumeric xs ys zs b f g h = ground (arith, contains_byte-either xs ys zs b)

contains_byte-IsAlphanumeric :
    (b : ℕ) → (contains_byte passcode_alphabet b ≡ true) ↔ IsAlphanumeric b
contains_byte-IsAlphanumeric b =
    subst (λ m. (contains_byte m b ≡ true) ↔ IsAlphanumeric b) (sym alphabet-codes_from)
      (ranges-IsAlphanumeric (codes_from 65 26) (codes_from 97 26) (codes_from 48 10) b
        (contains_byte-codes_from 65 26 b) (contains_byte-codes_from 97 26 b)
        (contains_byte-codes_from 48 10 b))

All_iff :
    (f : ℕ → Bool) (P : ℕ → Type 0)
    → ((b : ℕ) → (f b ≡ true) ↔ P b)
    → (text : Bytes) → (all f text ≡ true) ↔ All P text
All_iff f P same [] = (λ h. tt, λ h. refl)
All_iff f P same (b ∷ text) = ground (arith, same b, All_iff f P same text)

-- A text parses to a passcode exactly if it has 16 characters, each an ASCII letter, upper or lower
-- case, or a digit, and the passcode is then that text.
pub parse_iff :
    (text : Bytes) (p : Passcode)
    → (parse text ≡ ok p) ↔ ((length text ≡ 16) × All IsAlphanumeric text × (to_text p ≡ text))
parse_iff text p =
    let (to, from) = parse-IsWellFormed text p in
    let (to_all, from_all) =
      All_iff (contains_byte passcode_alphabet) IsAlphanumeric contains_byte-IsAlphanumeric text in
    (λ h. let ((l, a), e) = to h in (l, to_all a, e), λ (l, a, e). from ((l, from_all a), e))

index :
    (alphabet : Bytes) (i : ℕ)
    → i < length alphabet
    → (b : ℕ) × (get_elem? alphabet i ≡ some b) × (contains_byte alphabet b ≡ true)
index [] i h = absurd (omega arith)
index (x ∷ xs) zero h = (x, refl, ground arith)
index (x ∷ xs) (suc i) h = let (b, e, m) = index xs i (omega arith) in (b, e, ground arith)

module _ {S : Type 0} (rng : Rng S) where
  random_code_lem :
      (n : ℕ) (s : S)
      → (text : Bytes) × (s' : S) × (random_code rng n s ≡ ok (text, s'))
        × (length text ≡ n)
        × (all (contains_byte passcode_alphabet) text ≡ true)
  unfolding random_code
  random_code_lem zero s = ([], s, refl, refl, refl)
  random_code_lem (suc n) s =
      let i = (rng.random_range (length passcode_alphabet) s).0 in
      let (b, e, m) = index passcode_alphabet i (rng.random_range-lt _ s (omega arith)) in
      let (text, s', f, l, v) =
        random_code_lem n (rng.random_range (length passcode_alphabet) s).1 in
      (b ∷ text, s', rw (e, f), omega arith, ground arith)

  -- Drawing a passcode always succeeds, whatever the generator draws, and the text that the client
  -- is shown parses back to the same passcode.
  pub parse-new :
      (s : S) → (p : Passcode) × (s' : S) × (new rng s ≡ ok (p, s')) × (parse (to_text p) ≡ ok p)
  unfolding new
  parse-new s =
      let (text, s', e, l, v) = random_code_lem passcode_len s in
      (record { code = text }, s', rw e, (parse-IsWellFormed text _).1 ((l, v), refl))
