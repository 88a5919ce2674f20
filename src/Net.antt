-- ===== src/Net.antt =====
-- `std::net`: IP and socket addresses. An address is the number that its bytes spell, the first byte
-- highest (`Ipv4Addr::to_bits`, `Ipv6Addr::to_bits`). A socket address carries no flow and no scope,
-- as one made by `SocketAddr::new` has none.
use lwproxy.Base.{
  ℕ, ◌+◌, ◌*◌, ◌/◌, ◌%◌, ◌^◌, ◌<◌, ◌≡◌, refl, ◌⊎◌, inl, inr, Bool, true, false, Option, none, some,
  ℕ_discrete, ◌==◌, if◌then◌else◌,
}

pub data IpAddr : Type 0 where
  v4 v6 : ℕ → IpAddr

pub record SocketAddr : Type 0 where
  pub ip : IpAddr
  pub port : ℕ

unfoldable pub IpAddr-discrete : Discrete IpAddr
IpAddr-discrete = hlevel ℕ_discrete

unfoldable pub SocketAddr-discrete : Discrete SocketAddr
SocketAddr-discrete = hlevel (ℕ_discrete, IpAddr-discrete)

abbrev pub IsIpv4 : ℕ → Type 0
IsIpv4 a = a < 2 ^ 32

abbrev pub IsIpv6 : ℕ → Type 0
IsIpv6 a = a < 2 ^ 128

abbrev pub IsU16 : ℕ → Type 0
IsU16 n = n < 2 ^ 16

abbrev pub IsIp : IpAddr → Type 0
IsIp (v4 a) = IsIpv4 a
IsIp (v6 a) = IsIpv6 a

abbrev pub is_ipv4 : IpAddr → Bool
is_ipv4 (v4 a) = true
is_ipv4 (v6 a) = false

abbrev pub is_ipv6 : IpAddr → Bool
is_ipv6 (v4 a) = false
is_ipv6 (v6 a) = true

-- `Ipv4Addr::to_ipv6_mapped`: ::ffff:a.b.c.d
abbrev pub to_ipv6_mapped : ℕ → ℕ
to_ipv6_mapped a = 0xffff * 2 ^ 32 + a

-- `Ipv6Addr::to_ipv4_mapped`
abbrev pub to_ipv4_mapped : ℕ → Option ℕ
to_ipv4_mapped a = if a / 2 ^ 32 == 0xffff then some (a % 2 ^ 32) else none

-- `Ipv6Addr::segments()[0]`
abbrev pub first_segment : ℕ → ℕ
first_segment a = a / 2 ^ 112 % 2 ^ 16

pub IpAddr-cases : (ip : IpAddr) → ((a : ℕ) × (ip ≡ v4 a)) ⊎ ((a : ℕ) × (ip ≡ v6 a))
IpAddr-cases (v4 a) = inl (a, refl)
IpAddr-cases (v6 a) = inr (a, refl)
