-- ===== src/Dns/Records.antt =====
-- The addresses that a reply is made of.
use lwproxy.Base.{
  ◌≡◌, refl, Bool, true, false, ◌||◌, List, [], ◌∷◌, ◌++◌, Option, none, some, ite, if◌then◌else◌,
  Bytes, All, All-append, arith, Bool-cases, Option-cases, inl, inr,
}
use lwproxy.Net.{IpAddr, SocketAddr, IpAddr-discrete, IsIp}
use lwproxy.HashMap.Entries.{contains}
use lwproxy.Dns.{dedup, do_lookup}

push-IsIp :
    (b : Bool) (ip : IpAddr) (addrs : List IpAddr)
    → IsIp ip
    → All IsIp addrs
    → All IsIp (if b then addrs else addrs ++ (ip ∷ []))
push-IsIp true ip addrs h k = k
push-IsIp false ip addrs h k = All-append IsIp addrs (ip ∷ []) k (h, tt)

dedup-IsIp :
    (found : List SocketAddr) (addrs : List IpAddr)
    → All (λ (s : SocketAddr). IsIp s.ip) found
    → All IsIp addrs
    → All IsIp (dedup found addrs)
unfolding dedup
dedup-IsIp [] addrs h k = k
dedup-IsIp (s ∷ found) addrs h k =
    let b = contains IpAddr-discrete addrs s.ip in
    dedup-IsIp found (if b then addrs else addrs ++ (s.ip ∷ [])) h.1 (push-IsIp b s.ip addrs h.0 k)

pub do_lookup-some :
    (lookup_host : Bytes → Option (List SocketAddr)) (hostname : Bytes) (found : List SocketAddr)
    → lookup_host hostname ≡ some found
    → do_lookup lookup_host hostname ≡ dedup found []
unfolding do_lookup
do_lookup-some lookup_host hostname found e = rw (e, do_lookup) refl

pub do_lookup-none :
    (lookup_host : Bytes → Option (List SocketAddr)) (hostname : Bytes)
    → lookup_host hostname ≡ none
    → do_lookup lookup_host hostname ≡ []
unfolding do_lookup
do_lookup-none lookup_host hostname e = rw (e, do_lookup) refl

pub do_lookup-IsIp :
    (lookup_host : Bytes → Option (List SocketAddr)) (hostname : Bytes)
    → ((found : List SocketAddr)
        → lookup_host hostname ≡ some found
        → All (λ (s : SocketAddr). IsIp s.ip) found)
    → All IsIp (do_lookup lookup_host hostname)
do_lookup-IsIp lookup_host hostname h = elim (Option-cases (lookup_host hostname)) [
  | inl nothing ↦ rw (do_lookup-none lookup_host hostname nothing) tt
  | inr (found, e) ↦
      rw (do_lookup-some lookup_host hostname found e) (dedup-IsIp found [] (h found e) tt)
]

abbrev pub has : List IpAddr → IpAddr → Bool
has = contains IpAddr-discrete

abbrev pub finds : List SocketAddr → IpAddr → Bool
finds [] ip = false
finds (s ∷ found) ip = ite (IpAddr-discrete ip s.ip) true (finds found ip)

-- No address twice.
abbrev pub IsDistinct : List IpAddr → Type 0
IsDistinct [] = Unit
IsDistinct (a ∷ addrs) = (contains IpAddr-discrete addrs a ≡ false) × IsDistinct addrs

pub contains-append : (xs ys : List IpAddr) (a : IpAddr) → has (xs ++ ys) a ≡ (has xs a || has ys a)
unfolding contains
contains-append [] ys a = refl
contains-append (x ∷ xs) ys a = ground (arith, contains-append xs ys a)

push-IsDistinct :
    (addrs : List IpAddr) (a : IpAddr)
    → IsDistinct addrs
    → has addrs a ≡ false
    → IsDistinct (addrs ++ (a ∷ []))
unfolding contains
push-IsDistinct [] a d h = (refl, tt)
push-IsDistinct (x ∷ addrs) a d h =
    (ground (arith, contains-append addrs (a ∷ []) x), push-IsDistinct addrs a d.1 (ground arith))

-- Each address that was found or was there, once.
abbrev pub IsDeduped : List SocketAddr → List IpAddr → List IpAddr → Type 0
IsDeduped found addrs answer =
    IsDistinct answer
    × ((a : IpAddr)
        → contains IpAddr-discrete answer a ≡ (contains IpAddr-discrete addrs a || finds found a))

dedup-IsDeduped :
    (found : List SocketAddr) (addrs : List IpAddr)
    → IsDistinct addrs
    → IsDeduped found addrs (dedup found addrs)
unfolding dedup contains
dedup-IsDeduped [] addrs d = (d, λ a. ground arith)
dedup-IsDeduped (s ∷ found) addrs d = elim (Bool-cases (has addrs s.ip)) [
  | inl there ↦
      rw there (
        let (one, same) = dedup-IsDeduped found addrs d in
        (one, λ a. ground (arith, same a, there)))
  | inr new ↦ rw new (
      let (one, same) =
        dedup-IsDeduped found (addrs ++ (s.ip ∷ [])) (push-IsDistinct addrs s.ip d new) in
      (one, λ a. ground (arith, same a, contains-append addrs (s.ip ∷ []) a)))
]

-- When a name has addresses, the lookup gives each of them exactly once, and no other.
pub do_lookup-IsDeduped :
    (lookup_host : Bytes → Option (List SocketAddr)) (hostname : Bytes) (found : List SocketAddr)
    → lookup_host hostname ≡ some found
    → IsDeduped found [] (do_lookup lookup_host hostname)
do_lookup-IsDeduped lookup_host hostname found e =
    rw (do_lookup-some lookup_host hostname found e) (dedup-IsDeduped found [] tt)
