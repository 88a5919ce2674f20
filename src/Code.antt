-- ===== src/Code.antt =====
-- src/service/net/code.rs: addresses of the private network, and passcodes. The `rand` crate is no
-- part of the repository: its generator is a state, and a draw gives a number and the next state.
pub mod Passcodes
pub mod Addresses
use Prim.Native.Char.{code as char_code}
use Prim.Native.String.{String}
use lwproxy.Base.{
  ℕ, zero, suc, ◌+◌, ◌*◌, ◌^◌, ◌<◌, ◌≡◌, Bool, false, true, ◌||◌, List, [], ◌∷◌, ◌++◌, Option, none,
  some, ltb, ◌==◌, if◌then◌else◌, length, get_elem?, all, Bytes, ℕ_discrete,
}
use lwproxy.Result.{
  Result, ok, ◌>>=◌, ◌>>◌, ensure, unwrap, passcode_wrong_length, passcode_invalid_characters,
}
use lwproxy.Net.{first_segment}
use lwproxy.Wire.{be_bytes, from_be_bytes}

-- The bytes of an ASCII text.
abbrev pub codes : String → Bytes
codes String.[] = []
codes (String.◌∷◌ c s) = char_code c ∷ codes s

abbrev pub passcode_alphabet : Bytes
passcode_alphabet = codes "ABCDEFGHIJKLMNOPQRSTUVWXYZabcdefghijklmnopqrstuvwxyz0123456789"

abbrev pub passcode_len : ℕ
passcode_len = 16

abbrev pub prefix : ℕ
prefix = 0xfd00

abbrev pub reserved : ℕ
reserved = 256

-- `Ipv6Addr::new(PREFIX, 0, 0, 0, 0, 0, 0, 1)`
abbrev pub proxy_address : ℕ
proxy_address = prefix * 2 ^ 112 + 1

abbrev pub is_network_address : ℕ → Bool
is_network_address address = first_segment address == prefix

-- What the program uses of a random generator, and what its documentation says of the ranges.
pub record Rng (S : Type 0) : Type 0 where
  pub random : S → ℕ × S
  pub random_range : ℕ → S → ℕ × S
  pub random-lt : (s : S) → (random s).0 < 2 ^ 64
  pub random_range-lt : (n : ℕ) (s : S) → 0 < n → (random_range n s).0 < n

pub record Passcode : Type 0 where
  pub code : Bytes

unfoldable pub Passcode-discrete : Discrete Passcode
Passcode-discrete = hlevel ℕ_discrete

-- `Display`
abbrev pub to_text : Passcode → Bytes
to_text p = p.code

-- `<[u8]>::contains`
abbrev pub contains_byte : Bytes → ℕ → Bool
contains_byte [] b = false
contains_byte (x ∷ xs) b = x == b || contains_byte xs b

unfoldable pub parse : Bytes → Result Passcode
parse text = do
  ensure (length text == passcode_len) passcode_wrong_length
  ensure (all (contains_byte passcode_alphabet) text) passcode_invalid_characters
  ok (record { code = text })

-- The bytes before and after the random half of an address.
abbrev pub address_octets : ℕ → Bytes
address_octets low = be_bytes 2 prefix ++ (0 ∷ 0 ∷ 0 ∷ 0 ∷ 0 ∷ 0 ∷ be_bytes 8 low)

module _ {S : Type 0} (rng : Rng S) where
  open rng use {random, random_range}

  -- The loop, with the draws that it may make; `none` when all of them fell below `reserved`.
  unfoldable pub random_address : ℕ → S → Option (ℕ × S)
  random_address zero s = none
  random_address (suc fuel) s =
      let (low, s') = random s in
      let again = random_address fuel s' in
      if ltb low reserved then again else some (from_be_bytes (address_octets low), s')

  unfoldable pub random_code : ℕ → S → Result (Bytes × S)
  random_code zero s = ok ([], s)
  random_code (suc n) s = do
    let (i, s') = random_range (length passcode_alphabet) s
    b ← unwrap (get_elem? passcode_alphabet i)
    (rest, s'') ← random_code n s'
    ok (b ∷ rest, s'')

  unfoldable pub new : S → Result (Passcode × S)
  unfolding random_code
  new s = do (code, s') ← random_code passcode_len s; ok (record { code = code }, s')
