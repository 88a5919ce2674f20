-- ===== src/Wire.antt =====
-- The `bytes` crate, as far as the program uses it: a `Bytes` or `BytesMut` is its content. The crate
-- is not part of the repository, so its reads and writes are fields, and what its documentation says
-- of them are laws. A read past the end panics. Also numbers as bytes, the highest first.
pub mod Model
pub mod Octets
use lwproxy.Base.{
  ℕ, ◌+◌, ◌*◌, ◌/◌, ◌%◌, ◌^◌, ◌≤◌, ◌≡◌, List, [], ◌∷◌, ◌++◌, length, Bytes, zero, suc,
}
use lwproxy.Result.{Result, ok}

-- `to_be_bytes` of a number of w bytes.
unfoldable pub be_bytes : ℕ → ℕ → Bytes
be_bytes zero n = []
be_bytes (suc w) n = n / 256 ^ w % 256 ∷ be_bytes w n

-- `from_be_bytes`, from what the bytes before gave.
unfoldable pub from_be_from : ℕ → Bytes → ℕ
from_be_from acc [] = acc
from_be_from acc (b ∷ bs) = from_be_from (acc * 256 + b) bs

abbrev pub from_be_bytes : Bytes → ℕ
from_be_bytes = from_be_from 0

pub record Buf : Type 0 where
  pub put_u8 : Bytes → ℕ → Bytes
  pub put_u16 : Bytes → ℕ → Bytes
  pub put_u32 : Bytes → ℕ → Bytes
  pub put_slice : Bytes → Bytes → Bytes
  -- The value that was read, and what is left.
  pub get_u16 : Bytes → Result (ℕ × Bytes)
  pub get_u32 : Bytes → Result (ℕ × Bytes)
  -- `copy_to_slice` into an array of so many bytes.
  pub copy_to_slice : ℕ → Bytes → Result (Bytes × Bytes)
  pub put_u8_lem : (b : Bytes) (n : ℕ) → put_u8 b n ≡ b ++ be_bytes 1 n
  pub put_u16_lem : (b : Bytes) (n : ℕ) → put_u16 b n ≡ b ++ be_bytes 2 n
  pub put_u32_lem : (b : Bytes) (n : ℕ) → put_u32 b n ≡ b ++ be_bytes 4 n
  pub put_slice_lem : (b s : Bytes) → put_slice b s ≡ b ++ s
  pub get_u16_lem :
      (s rest : Bytes) → length s ≡ 2 → get_u16 (s ++ rest) ≡ ok (from_be_bytes s, rest)
  pub get_u32_lem :
      (s rest : Bytes) → length s ≡ 4 → get_u32 (s ++ rest) ≡ ok (from_be_bytes s, rest)
  pub copy_to_slice_lem :
      (n : ℕ) (s rest : Bytes) → length s ≡ n → copy_to_slice n (s ++ rest) ≡ ok (s, rest)
