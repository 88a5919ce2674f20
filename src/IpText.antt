-- ===== src/IpText.antt =====
-- `IpAddr::from_str` and the `Display` of IPv6 addresses, as `core::net` has them. A reader takes the
-- text that is left and gives what it read and the rest; one that fails leaves the text alone.
use lwproxy.Base.{
  ℕ, zero, suc, ◌+◌, ◌-◌, ◌*◌, ◌/◌, ◌%◌, ◌^◌, Bool, true, false, not, ◌&&◌, ◌||◌, List, [], ◌∷◌,
  ◌++◌, Option, none, some, ltb, leb, ◌==◌, if◌then◌else◌, Bytes, is_empty, length, take, drop,
}
use lwproxy.Net.{IpAddr, v4, v6, to_ipv4_mapped}

infixl 5 ◌>>=◌
abbrev ◌>>=◌ {ℓ κ} : {A : Type ℓ} {B : Type κ} → Option A → (A → Option B) → Option B
none >>= f = none
some a >>= f = f a

abbrev check : Bool → Option (Unit {0})
check b = if b then some tt else none

infixl 5 ◌>>◌
abbrev ◌>>◌ {ℓ} : {B : Type ℓ} → Option (Unit {0}) → Option B → Option B
m >> k = m >>= λ _. k

-- `char::to_digit`, up to radix 16.
abbrev pub to_digit : ℕ → ℕ → Option ℕ
to_digit radix c =
    let d =
      if leb b'0' c && leb c b'9'
      then c - b'0'
      else if leb b'a' c && leb c b'f'
      then c - b'a' + 10
      else if leb b'A' c && leb c b'F'
      then c - b'A' + 10
      else radix in
    if ltb d radix then some d else none

-- The digits that follow, of which there may be `max`: their value, how many, and the rest.
unfoldable pub read_digits : ℕ → ℕ → ℕ → ℕ → Bytes → Option (ℕ × ℕ × Bytes)
read_digits radix max acc count [] = some (acc, count, [])
read_digits radix max acc count (c ∷ s) = elim (to_digit radix c) [
  | none ↦ some (acc, count, c ∷ s)
  | some d ↦
      let rest = read_digits radix max (acc * radix + d) (count + 1) s in
      if ltb max (count + 1) then none else rest
]

abbrev pub starts_with : ℕ → Bytes → Bool
starts_with c [] = false
starts_with c (b ∷ s) = b == c

-- `read_number`, into a type of the values below `bound`.
unfoldable pub read_number : ℕ → ℕ → Bool → ℕ → Bytes → Option (ℕ × Bytes)
unfolding read_digits
read_number radix max zero_prefix bound s = do
  (n, count, rest) ← read_digits radix max 0 0 s
  check (not (count == 0))
  check (zero_prefix || not (starts_with b'0' s && ltb 1 count))
  check (ltb n bound)
  some (n, rest)

abbrev pub read_char : ℕ → Bytes → Option Bytes
read_char c [] = none
read_char c (b ∷ s) = if b == c then some s else none

abbrev pub octet : Bytes → Option (ℕ × Bytes)
octet = read_number 10 3 false (2 ^ 8)

abbrev pub group : Bytes → Option (ℕ × Bytes)
group = read_number 16 4 true (2 ^ 16)

unfoldable pub read_ipv4 : Bytes → Option (ℕ × Bytes)
unfolding read_number
read_ipv4 s = do
  (a, s) ← octet s
  s ← read_char b'.' s
  (b, s) ← octet s
  s ← read_char b'.' s
  (c, s) ← octet s
  s ← read_char b'.' s
  (d, s) ← octet s
  some (((a * 256 + b) * 256 + c) * 256 + d, s)

-- `read_separator` by a colon, which stands before all but the first of a row.
abbrev pub separated : ℕ → (Bytes → Option (ℕ × Bytes)) → Bytes → Option (ℕ × Bytes)
separated zero read s = read s
separated (suc i) read s = do s ← read_char b':' s; read s

-- Groups from index `i` on, of which there is room for so many; whether the last two were written as
-- an IPv4 address, for which there must be room for two.
unfoldable pub read_groups : ℕ → ℕ → Bytes → List ℕ × Bool × Bytes
unfolding read_ipv4 read_number
read_groups zero i s = ([], false, s)
read_groups (suc room) i s = elim (if room == 0 then none else separated i read_ipv4 s) [
  | some (a, s') ↦ (a / 2 ^ 16 ∷ a % 2 ^ 16 ∷ [], true, s')
  | none ↦ elim (separated i group s) [
    | none ↦ ([], false, s)
    | some (g, s') ↦
        let (groups, ipv4, rest) = read_groups room (suc i) s' in (g ∷ groups, ipv4, rest)
  ]
]

abbrev pub zeros : ℕ → List ℕ
zeros zero = []
zeros (suc n) = 0 ∷ zeros n

abbrev pub from_groups : ℕ → List ℕ → ℕ
from_groups acc [] = acc
from_groups acc (g ∷ groups) = from_groups (acc * 2 ^ 16 + g) groups

unfoldable pub read_ipv6 : Bytes → Option (ℕ × Bytes)
unfolding read_groups
read_ipv6 s =
    let (head, head_ipv4, front) = read_groups 8 0 s in
    let short = (do
      s ← read_char b':' front
      s ← read_char b':' s
      let (tail, _, back) = read_groups (7 - length head) 0 s
      let gap = 8 - length head - length tail
      some (from_groups 0 (head ++ (zeros gap ++ tail)), back)) in
    if length head == 8 then some (from_groups 0 head, front) else if head_ipv4 then none else short

-- `str::parse`: nothing may be left over.
abbrev all_of : (ℕ → IpAddr) → ℕ × Bytes → Option IpAddr
all_of v (a, rest) = if is_empty rest then some (v a) else none

unfoldable pub parse_ip : Bytes → Option IpAddr
unfolding read_ipv4 read_ipv6
parse_ip s = elim (read_ipv4 s) [
  | some r ↦ all_of v4 r
  | none ↦ elim (read_ipv6 s) [ some r ↦ all_of v6 r | none ↦ none ]
]

-- `{:x}` of a 16-bit number.
abbrev pub hex_digit : ℕ → ℕ
hex_digit d = if ltb d 10 then b'0' + d else b'a' + (d - 10)

abbrev pub hex : ℕ → Bytes
hex g =
    let d0 = hex_digit (g % 16) in
    let d1 = hex_digit (g / 16 % 16) in
    let d2 = hex_digit (g / 256 % 16) in
    let d3 = hex_digit (g / 4096 % 16) in
    if ltb g 16
    then d0 ∷ []
    else if ltb g 256
    then d1 ∷ d0 ∷ []
    else if ltb g 4096
    then d2 ∷ d1 ∷ d0 ∷ []
    else d3 ∷ d2 ∷ d1 ∷ d0 ∷ []

-- A byte in decimal.
abbrev pub decimal : ℕ → Bytes
decimal n =
    let d0 = b'0' + n % 10 in
    let d1 = b'0' + n / 10 % 10 in
    let d2 = b'0' + n / 100 in
    if ltb n 10 then d0 ∷ [] else if ltb n 100 then d1 ∷ d0 ∷ [] else d2 ∷ d1 ∷ d0 ∷ []

abbrev pub show_ipv4 : ℕ → Bytes
show_ipv4 a =
    decimal (a / 2 ^ 24)
    ++ (b'.' ∷ decimal (a / 2 ^ 16 % 256)
        ++ (b'.' ∷ decimal (a / 2 ^ 8 % 256) ++ (b'.' ∷ decimal (a % 256))))

-- `Ipv6Addr::segments`
abbrev pub segments : ℕ → List ℕ
segments a =
    a / 2 ^ 112 % 2 ^ 16
    ∷ a / 2 ^ 96 % 2 ^ 16
    ∷ a / 2 ^ 80 % 2 ^ 16
    ∷ a / 2 ^ 64 % 2 ^ 16
    ∷ a / 2 ^ 48 % 2 ^ 16
    ∷ a / 2 ^ 32 % 2 ^ 16
    ∷ a / 2 ^ 16 % 2 ^ 16
    ∷ a % 2 ^ 16
    ∷ []

pub record Span : Type 0 where
  pub start : ℕ
  pub len : ℕ

abbrev no_span : Span
no_span = record { start = 0; len = 0 }

-- The longest run of zeros, the first of them if there are several.
unfoldable pub longest_zeros : ℕ → Span → Span → List ℕ → Span
longest_zeros i longest current [] = longest
longest_zeros i longest current (g ∷ groups) =
    let current' : Span = record {
      start = if current.len == 0 then i else current.start;
      len = current.len + 1;
    } in
    let longest' = if ltb longest.len current'.len then current' else longest in
    let (longest'', current'') = if g == 0 then (longest', current') else (longest, no_span) in
    longest_zeros (i + 1) longest'' current'' groups

abbrev pub show_more : List ℕ → Bytes
show_more [] = []
show_more (g ∷ groups) = b':' ∷ hex g ++ show_more groups

abbrev pub show_groups : List ℕ → Bytes
show_groups [] = []
show_groups (g ∷ groups) = hex g ++ show_more groups

unfoldable pub show_ipv6 : ℕ → Bytes
unfolding longest_zeros
show_ipv6 a =
    let groups = segments a in
    let gap = longest_zeros 0 no_span no_span groups in
    elim (to_ipv4_mapped a) [
      | some b ↦ b':' ∷ b':' ∷ b'f' ∷ b'f' ∷ b'f' ∷ b'f' ∷ b':' ∷ show_ipv4 b
      | none ↦
          if ltb 1 gap.len
          then show_groups (take gap.start groups)
            ++ (b':' ∷ b':' ∷ show_groups (drop (gap.start + gap.len) groups))
          else show_groups groups
    ]
