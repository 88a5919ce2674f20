-- ===== src/Wire/Octets.antt =====
-- Numbers and their bytes, both ways.
use native.Mathlib.Nat.{
  div-add-mod, div-div-eq-div-mul, mul_comm, mod-eq_of_lt, pow-succ', div-eq_of_lt-le,
}
use lwproxy.Base.{
  ℕ, zero, suc, ◌+◌, ◌*◌, ◌/◌, ◌%◌, ◌^◌, ◌<◌, ◌≡◌, refl, [], ◌∷◌, arith, length, All, Bytes, IsByte,
  ap, ◌∙◌,
}
use lwproxy.Wire.{be_bytes, from_be_from, from_be_bytes}

pub length-be_bytes : (w n : ℕ) → length (be_bytes w n) ≡ w
unfolding be_bytes
length-be_bytes zero n = refl
length-be_bytes (suc w) n = ap suc (length-be_bytes w n)

pub be_bytes-IsByte : (w n : ℕ) → All IsByte (be_bytes w n)
unfolding be_bytes
be_bytes-IsByte zero n = tt
be_bytes-IsByte (suc w) n = (omega arith, be_bytes-IsByte w n)

pow_256-suc : (w : ℕ) → 256 ^ suc w ≡ 256 * 256 ^ w
pow_256-suc w = pow-succ' 256 w

pow_256-pos : (w : ℕ) → 0 < 256 ^ w
pow_256-pos zero = omega arith
pow_256-pos (suc w) = omega (arith, pow_256-suc w, pow_256-pos w)

-- The lowest digits and one more.
mod-digit : (m n : ℕ) → n / m % 256 * m + n % m ≡ n % (256 * m)
mod-digit m n = omega (
  arith,
  div-add-mod n m,
  ap (λ (t : ℕ). t * m) (div-add-mod (n / m) 256),
  div-add-mod n (256 * m),
  ap (λ (t : ℕ). 256 * m * t) (div-div-eq-div-mul n m 256 ∙ ap (λ (t : ℕ). n / t) (mul_comm m 256)),
)

pub from_be_from-be_bytes :
    (w acc n : ℕ) → from_be_from acc (be_bytes w n) ≡ acc * 256 ^ w + n % 256 ^ w
unfolding be_bytes from_be_from
from_be_from-be_bytes zero acc n = omega arith
from_be_from-be_bytes (suc w) acc n = rw (pow_256-suc w) (
    omega (arith, from_be_from-be_bytes w (acc * 256 + n / 256 ^ w % 256) n, mod-digit (256 ^ w) n))

-- Reading back what was written gives the number, if it fits.
pub from_be_bytes-be_bytes : (w n : ℕ) → n < 256 ^ w → from_be_bytes (be_bytes w n) ≡ n
from_be_bytes-be_bytes w n h = omega (arith, from_be_from-be_bytes w 0 n, mod-eq_of_lt h)

-- The digits of a number that starts with `acc` end with those of `s`.
from_be_from-split :
    (s : Bytes) (acc : ℕ)
    → All IsByte s
    → (r : ℕ) × (from_be_from acc s ≡ acc * 256 ^ length s + r) × (r < 256 ^ length s)
unfolding from_be_from
from_be_from-split [] acc h = (0, omega arith, omega arith)
from_be_from-split (b ∷ s) acc h =
    let (r, e, small) = from_be_from-split s (acc * 256 + b) h.1 in
    (b * 256 ^ length s + r, rw (pow_256-suc (length s)) (omega (arith, e)), top r small)
  where
    top : (r : ℕ) → r < 256 ^ length s → b * 256 ^ length s + r < 256 ^ suc (length s)
    top r small = rw (pow_256-suc (length s)) (grind arith)

pub from_be_bytes-lt : (s : Bytes) → All IsByte s → from_be_bytes s < 256 ^ length s
from_be_bytes-lt s h = let (r, e, small) = from_be_from-split s 0 h in omega arith

be_bytes-from_be_from :
    (s : Bytes) (acc : ℕ) → All IsByte s → be_bytes (length s) (from_be_from acc s) ≡ s
unfolding be_bytes from_be_from
be_bytes-from_be_from [] acc h = refl
be_bytes-from_be_from (b ∷ s) acc h =
    let (r, e, small) = from_be_from-split s (acc * 256 + b) h.1 in
    cc (first_digit r e small, be_bytes-from_be_from s (acc * 256 + b) h.1)
  where
    first_digit :
        (r : ℕ)
        → from_be_from (acc * 256 + b) s ≡ (acc * 256 + b) * 256 ^ length s + r
        → r < 256 ^ length s
        → from_be_from (acc * 256 + b) s / 256 ^ length s % 256 ≡ b
    first_digit r e small = omega (
      arith,
      div-eq_of_lt-le {k = acc * 256 + b} (256 ^ length s) {m = from_be_from (acc * 256 + b) s}
          (omega arith) (omega arith),
    )

-- Writing what was read gives the bytes back.
pub be_bytes-from_be_bytes : (s : Bytes) → All IsByte s → be_bytes (length s) (from_be_bytes s) ≡ s
be_bytes-from_be_bytes s h = be_bytes-from_be_from s 0 h
