-- ===== src/Dns/Reply.antt =====
-- Replies, xs a client reads them.
use native.Mathlib.Nat.{mod-eq_of_lt}
use lwproxy.Base.{
  ℕ, zero, suc, ◌%◌, ◌^◌, ◌<◌, ◌≤◌, ◌≡◌, refl, sym, ap, Bool, ◌&&◌, List, [], ◌∷◌, ◌++◌, Option,
  none, some, if◌then◌else◌, keep, take, drop, length, Bytes, All, All-append, All-take, append-nil,
  leb, ◌==◌, append_assoc, arith, length-append,
}
use mathlib.Core.Option
use lwproxy.Net.{IpAddr, v4, v6, is_ipv4, is_ipv6, IsIp}
use lwproxy.Wire.{Buf, be_bytes, from_be_bytes}
use lwproxy.Wire.Octets.{length-be_bytes, from_be_bytes-be_bytes}
use lwproxy.Dns.{Filter, accepts, max_records, tag_ipv4, tag_ipv6, selected, put_records, encode}

module _ {ℓ} {A : Type ℓ} where
  take-append : (n : ℕ) (s r : List A) → length s ≡ n → take n (s ++ r) ≡ s
  take-append zero [] r h = refl
  take-append zero (x ∷ s) r h = absurd (omega arith)
  take-append (suc n) [] r h = absurd (omega arith)
  take-append (suc n) (x ∷ s) r h = ap (◌∷◌ x) (take-append n s r (omega arith))

  drop-append : (n : ℕ) (s r : List A) → length s ≡ n → drop n (s ++ r) ≡ r
  drop-append zero [] r h = refl
  drop-append zero (x ∷ s) r h = absurd (omega arith)
  drop-append (suc n) [] r h = absurd (omega arith)
  drop-append (suc n) (x ∷ s) r h = drop-append n s r (omega arith)

-- A client's reader of so many records that fill the rest of a reply.
read_records : ℕ → Bytes → Option (List IpAddr)
read_records zero [] = some []
read_records zero (b ∷ bs) = none
read_records (suc n) [] = none
read_records (suc n) (tag ∷ bs) =
    let rest4 = read_records n (drop 4 bs) in
    let rest16 = read_records n (drop 16 bs) in
    if tag == 4 && leb 4 (length bs)
    then Option.map (λ r. v4 (from_be_bytes (take 4 bs)) ∷ r) rest4
    else if tag == 6 && leb 16 (length bs)
    then Option.map (λ r. v6 (from_be_bytes (take 16 bs)) ∷ r) rest16
    else none

pub read_reply : Bytes → Option (List IpAddr)
read_reply [] = none
read_reply (count ∷ bs) = read_records count bs

record_bytes : IpAddr → Bytes
record_bytes (v4 a) = tag_ipv4 ∷ be_bytes 4 a
record_bytes (v6 a) = tag_ipv6 ∷ be_bytes 16 a

all_records : List IpAddr → Bytes
all_records [] = []
all_records (a ∷ xs) = record_bytes a ++ all_records xs

read-all_records :
    (xs : List IpAddr) → All IsIp xs → read_records (length xs) (all_records xs) ≡ some xs
unfolding read_records all_records record_bytes
read-all_records [] h = refl
read-all_records (v4 a ∷ xs) h =
    let rest = all_records xs in
    let digits = be_bytes 4 a in
    rw
      (
        take-append 4 digits rest (length-be_bytes 4 a),
        drop-append 4 digits rest (length-be_bytes 4 a),
        from_be_bytes-be_bytes 4 a (omega (arith, h.0)),
        read-all_records xs h.1,
      )
      (ground (arith, length-append digits rest, length-be_bytes 4 a))
read-all_records (v6 a ∷ xs) h =
    let rest = all_records xs in
    let digits = be_bytes 16 a in
    rw
      (
        take-append 16 digits rest (length-be_bytes 16 a),
        drop-append 16 digits rest (length-be_bytes 16 a),
        from_be_bytes-be_bytes 16 a (omega (arith, h.0)),
        read-all_records xs h.1,
      )
      (ground (arith, length-append digits rest, length-be_bytes 16 a))

be_bytes-byte : (n : ℕ) → n < 256 → be_bytes 1 n ≡ n ∷ []
unfolding be_bytes
be_bytes-byte n h = ap (λ (m : ℕ). m ∷ []) (omega arith)

module _ (buf : Buf) where
  open buf use {put_u8, put_slice, put_u8_lem, put_slice_lem}

  put-record : (b s : Bytes) (n : ℕ) → n < 256 → put_slice (put_u8 b n) s ≡ b ++ (n ∷ s)
  put-record b s n h = rw (put_slice_lem, put_u8_lem, be_bytes-byte n h, append_assoc) refl

  put_records-all_records :
      (b : Bytes) (xs : List IpAddr) → put_records buf b xs ≡ b ++ all_records xs
  unfolding put_records all_records record_bytes
  put_records-all_records b [] = sym (append-nil _)
  put_records-all_records b (v4 a ∷ xs) =
      rw
        (
          put-record b (be_bytes 4 a) tag_ipv4 (omega arith),
          put_records-all_records (b ++ (tag_ipv4 ∷ be_bytes 4 a)) xs,
          append_assoc,
        )
        refl
  put_records-all_records b (v6 a ∷ xs) =
      rw
        (
          put-record b (be_bytes 16 a) tag_ipv6 (omega arith),
          put_records-all_records (b ++ (tag_ipv6 ∷ be_bytes 16 a)) xs,
          append_assoc,
        )
        refl

keep-All {κ} :
    (p : IpAddr → Bool) (P : IpAddr → Type κ) (xs : List IpAddr) → All P xs → All P (keep p xs)
keep-All p P [] h = tt
keep-All p P (x ∷ xs) h = ground (arith, keep-All p P xs h.1)

length-take_le : (n : ℕ) (xs : List IpAddr) → length (take n xs) ≤ n
length-take_le zero xs = omega arith
length-take_le (suc n) [] = omega arith
length-take_le (suc n) (x ∷ xs) = omega (arith, length-take_le n xs)

-- The addresses of one family that a filter accepts.
abbrev pub family_v6 : Filter → List IpAddr → List IpAddr
family_v6 filter addrs = keep (λ a. is_ipv6 a && accepts filter a) addrs

abbrev pub family_v4 : Filter → List IpAddr → List IpAddr
family_v4 filter addrs = keep (λ a. is_ipv4 a && accepts filter a) addrs

selected-All {κ} :
    (filter : Filter) (P : IpAddr → Type κ) (addrs : List IpAddr)
    → All P addrs
    → All P (selected filter addrs)
unfolding selected
selected-All filter P addrs h = All-take P 4 (family_v6 filter addrs ++ family_v4 filter addrs) (
    All-append P (family_v6 filter addrs) (family_v4 filter addrs) (keep-All _ P addrs h)
      (keep-All _ P addrs h))

pub length-selected :
    (filter : Filter) (addrs : List IpAddr) → length (selected filter addrs) ≤ max_records
unfolding selected
length-selected filter addrs = length-take_le 4 _

-- For addresses in range, a client that reads the count, and then as many tagged records as it
-- says, gets exactly the selected addresses, and no byte is left.
pub read-encode :
    (buf : Buf) (filter : Filter) (addrs : List IpAddr)
    → All IsIp addrs
    → read_reply (encode buf filter addrs) ≡ some (selected filter addrs)
unfolding encode read_reply
read-encode buf filter addrs h =
    let chosen = selected filter addrs in
    let few = length-selected filter addrs in
    let n = length chosen in
    let fits : n < 2 ^ 8 = omega (arith, few) in
    rw
      (
        buf.put_u8_lem,
        put_records-all_records buf,
        be_bytes-byte (n % 2 ^ 8) (omega arith),
        mod-eq_of_lt fits,
        read-all_records chosen (selected-All filter IsIp addrs h),
      )
      refl
