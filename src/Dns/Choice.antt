-- ===== src/Dns/Choice.antt =====
-- Which of the addresses found a reply gives, and in which order.
use mathlib.Core.Bool.{false≢true}
use lwproxy.Base.{
  ℕ, zero, suc, ◌+◌, ◌≡◌, refl, Bool, true, ◌&&◌, List, [], ◌∷◌, ◌++◌, if◌then◌else◌, length, All,
  All-append, All-map, All-take, keep, take, leb, arith, length-append,
}
use lwproxy.Net.{IpAddr, v4, v6, IpAddr-discrete, is_ipv4, is_ipv6}
use lwproxy.HashMap.Entries.{contains}
use lwproxy.Dns.{Filter, accepts, max_records, selected}
use lwproxy.Dns.Records.{has, contains-append}

-- How many addresses a filter accepts.
abbrev pub accepted : Filter → List IpAddr → ℕ
accepted filter [] = 0
accepted filter (a ∷ addrs) = (if accepts filter a then 1 else 0) + accepted filter addrs

-- IPv6 addresses first, then IPv4 addresses.
abbrev pub IsIpv6First : List IpAddr → Type 0
IsIpv6First [] = Unit
IsIpv6First (v6 a ∷ addrs) = IsIpv6First addrs
IsIpv6First (v4 a ∷ addrs) = All (λ b. is_ipv4 b ≡ true) addrs

abbrev family_v6 : Filter → List IpAddr → List IpAddr
family_v6 filter addrs = keep (λ a. is_ipv6 a && accepts filter a) addrs

abbrev family_v4 : Filter → List IpAddr → List IpAddr
family_v4 filter addrs = keep (λ a. is_ipv4 a && accepts filter a) addrs

keep_holds : (p : IpAddr → Bool) (addrs : List IpAddr) → All (λ a. p a ≡ true) (keep p addrs)
keep_holds p [] = tt
keep_holds p (a ∷ addrs) = ground (arith, keep_holds p addrs)

contains-keep :
    (p : IpAddr → Bool) (addrs : List IpAddr) (a : IpAddr)
    → has (keep p addrs) a ≡ true
    → has addrs a ≡ true
unfolding contains
contains-keep p [] a h = h
contains-keep p (x ∷ addrs) a h = ground (arith, contains-keep p addrs a)

contains-take :
    (n : ℕ) (addrs : List IpAddr) (a : IpAddr) → has (take n addrs) a ≡ true → has addrs a ≡ true
unfolding contains
contains-take zero addrs a h = absurd (false≢true h)
contains-take (suc n) [] a h = h
contains-take (suc n) (x ∷ addrs) a h = ground (arith, contains-take n addrs a)

families_count :
    (filter : Filter) (addrs : List IpAddr)
    → length (family_v6 filter addrs) + length (family_v4 filter addrs) ≡ accepted filter addrs
families_count filter [] = refl
families_count filter (v4 a ∷ addrs) = ground (arith, families_count filter addrs)
families_count filter (v6 a ∷ addrs) = ground (arith, families_count filter addrs)

-- The smaller of two.
abbrev pub at_most : ℕ → ℕ → ℕ
at_most n m = if leb m n then m else n

length-take : (n : ℕ) (addrs : List IpAddr) → length (take n addrs) ≡ at_most n (length addrs)
length-take zero addrs = ground arith
length-take (suc n) [] = ground arith
length-take (suc n) (x ∷ addrs) = ground (arith, length-take n addrs)

All-has : (addrs : List IpAddr) → All (λ a. has addrs a ≡ true) addrs
unfolding contains
All-has [] = tt
All-has (a ∷ addrs) = (ground arith, All-map (λ b h. ground (arith, h)) addrs (All-has addrs))

v4_only-IsIpv6First : (addrs : List IpAddr) → All (λ a. is_ipv4 a ≡ true) addrs → IsIpv6First addrs
v4_only-IsIpv6First [] h = tt
v4_only-IsIpv6First (v4 a ∷ addrs) h = h.1
v4_only-IsIpv6First (v6 a ∷ addrs) h = absurd (false≢true h.0)

take-IsIpv6First :
    (n : ℕ) (xs ys : List IpAddr)
    → All (λ a. is_ipv6 a ≡ true) xs
    → All (λ a. is_ipv4 a ≡ true) ys
    → IsIpv6First (take n (xs ++ ys))
take-IsIpv6First zero xs ys h k = tt
take-IsIpv6First (suc n) [] ys h k = v4_only-IsIpv6First (take (suc n) ys) (All-take _ (suc n) ys k)
take-IsIpv6First (suc n) (v4 a ∷ xs) ys h k = absurd (false≢true h.0)
take-IsIpv6First (suc n) (v6 a ∷ xs) ys h k = take-IsIpv6First n xs ys h.1 k

abbrev pub IsChosen : Filter → List IpAddr → List IpAddr → Type 0
IsChosen filter addrs chosen =
    (length chosen ≡ at_most max_records (accepted filter addrs))
    × All (λ a. accepts filter a ≡ true) chosen
    × All (λ a. contains IpAddr-discrete addrs a ≡ true) chosen
    × IsIpv6First chosen

-- A reply carries as many addresses as the filter accepts, but at most four; each is accepted and
-- is one that was found, and IPv6 addresses come before IPv4 addresses.
pub selected-IsChosen :
    (filter : Filter) (addrs : List IpAddr) → IsChosen filter addrs (selected filter addrs)
unfolding selected
selected-IsChosen filter addrs =
    let sixes = family_v6 filter addrs in
    let fours = family_v4 filter addrs in
    let h6 = keep_holds (λ a. is_ipv6 a && accepts filter a) addrs in
    let h4 = keep_holds (λ a. is_ipv4 a && accepts filter a) addrs in
    (
      rw (length-take 4 (sixes ++ fours), length-append sixes fours, families_count filter addrs)
          refl,
      All-take _ 4 (sixes ++ fours) (
          All-append (λ a. accepts filter a ≡ true) sixes fours
            (All-map (λ a h. ground (arith, h)) sixes h6)
            (All-map (λ a h. ground (arith, h)) fours h4)),
      All-map (λ a h. from_families a (contains-take 4 (sixes ++ fours) a h))
          (take 4 (sixes ++ fours)) (All-has _),
      take-IsIpv6First 4 sixes fours (All-map (λ a h. ground (arith, h)) sixes h6)
          (All-map (λ a h. ground (arith, h)) fours h4),
    )
  where
    from_families :
        (a : IpAddr)
        → has (family_v6 filter addrs ++ family_v4 filter addrs) a ≡ true
        → has addrs a ≡ true
    from_families a h = ground (
      arith,
      contains-append (family_v6 filter addrs) (family_v4 filter addrs) a,
      contains-keep (λ a. is_ipv6 a && accepts filter a) addrs a,
      contains-keep (λ a. is_ipv4 a && accepts filter a) addrs a,
    )
