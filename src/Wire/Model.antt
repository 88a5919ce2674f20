-- ===== src/Wire/Model.antt =====
-- A `Buf` that meets the laws: reads are by position, writes append.
use lwproxy.Base.{ℕ, zero, suc, ◌≡◌, refl, [], ◌∷◌, ◌++◌, arith, length, Bytes}
use lwproxy.Result.{Result, ok, panic, ◌>>=◌}
use lwproxy.Wire.{Buf, be_bytes, from_be_bytes}

unfoldable pub split_at : ℕ → Bytes → Result (Bytes × Bytes)
split_at zero b = ok ([], b)
split_at (suc n) [] = panic
split_at (suc n) (x ∷ b) = do (s, rest) ← split_at n b; ok (x ∷ s, rest)

pub split_at-append :
    (n : ℕ) (s rest : Bytes) → length s ≡ n → split_at n (s ++ rest) ≡ ok (s, rest)
unfolding split_at
split_at-append zero [] rest h = refl
split_at-append zero (x ∷ s) rest h = absurd (omega arith)
split_at-append (suc n) [] rest h = absurd (omega arith)
split_at-append (suc n) (x ∷ s) rest h = rw (split_at-append n s rest (omega arith))

abbrev pub read : ℕ → Bytes → Result (ℕ × Bytes)
read n b = do (s, rest) ← split_at n b; ok (from_be_bytes s, rest)

pub read_lem :
    (n : ℕ) (s rest : Bytes) → length s ≡ n → read n (s ++ rest) ≡ ok (from_be_bytes s, rest)
read_lem n s rest h = rw (split_at-append n s rest h)

abbrev pub plain_buf : Buf
plain_buf = record {
  put_u8 = λ b n. b ++ be_bytes 1 n;
  put_u16 = λ b n. b ++ be_bytes 2 n;
  put_u32 = λ b n. b ++ be_bytes 4 n;
  put_slice = λ b s. b ++ s;
  get_u16 = read 2;
  get_u32 = read 4;
  copy_to_slice = split_at;
  put_u8_lem = λ b n. refl;
  put_u16_lem = λ b n. refl;
  put_u32_lem = λ b n. refl;
  put_slice_lem = λ b s. refl;
  get_u16_lem = read_lem 2;
  get_u32_lem = read_lem 4;
  copy_to_slice_lem = split_at-append;
}
