-- ===== src/Tests/DnsTests.antt =====
-- The resolver of the proxy: a name with two addresses of one kind and one of the other.
use lwproxy.Base.{
  ◌≡◌, refl, [], ◌∷◌, List, Option, none, some, true, false, Bytes, arith, if◌then◌else◌, length,
  map, ◌++◌, All, Bool, ◌≤◌, ◌+◌, ◌*◌, ◌^◌,
}
use mathlib.Core.Path.{subst}
use lwproxy.Result.{ok, err, relay_closed}
use lwproxy.Net.{IpAddr, v4, v6, SocketAddr, IsIp}
use lwproxy.Wire.{be_bytes}
use lwproxy.Wire.Model.{plain_buf}
use lwproxy.Text.{text_eq, is_whitespace}
use lwproxy.Text.Words.{IsWord}
use lwproxy.Code.{codes}
use lwproxy.Dns.{
  any, only_v4, max_records, selected, do_lookup, dedup, encode, handle_query, parse_query, run,
}
use lwproxy.Dns.Choice.{IsChosen, selected-IsChosen}
use lwproxy.Dns.Reply.{read_reply, read-encode}
use lwproxy.Dns.Query.{
  query, parse_query-query, expected, IsAnswered, handle_query-IsAnswered, run-answers, served,
  IsResolver,
}

abbrev sevens : IpAddr
sevens = v4 0x07070707

abbrev local : IpAddr
local = v6 1

abbrev host : Bytes
host = codes "example.org"

abbrev found : List SocketAddr
found =
    (record { ip = sevens; port = 0 })
    ∷ (record { ip = local; port = 0 })
    ∷ (record { ip = sevens; port = 0 })
    ∷ []

abbrev resolver : Bytes → Option (List SocketAddr)
resolver h = if text_eq h host then some found else none

abbrev IsFound : Option (List SocketAddr) → Type 0
IsFound none = Unit
IsFound (some f) = All (λ (s : SocketAddr). IsIp s.ip) f

known-IsFound : (b : Bool) → IsFound (if b then some found else none)
known-IsFound true = omega arith
known-IsFound false = tt

resolver-IsResolver : IsResolver resolver
resolver-IsResolver h f e = subst IsFound e (known-IsFound (text_eq h host))

do_lookup_runs : do_lookup resolver host ≡ sevens ∷ local ∷ []
unfolding do_lookup dedup lwproxy.HashMap.Entries.contains lwproxy.Net.IpAddr-discrete
    lwproxy.Base.ℕ_discrete
do_lookup_runs = refl

handle_query_runs :
    handle_query plain_buf resolver (query host any)
    ≡ ok (
        2 ∷ 6 ∷ 0 ∷ 0 ∷ 0 ∷ 0 ∷ 0 ∷ 0 ∷ 0 ∷ 0 ∷ 0 ∷ 0 ∷ 0 ∷ 0 ∷ 0 ∷ 0 ∷ 0 ∷ 1 ∷ 4 ∷ 7 ∷ 7 ∷ 7 ∷ 7
        ∷ [])
unfolding handle_query do_lookup dedup lwproxy.HashMap.Entries.contains lwproxy.Net.IpAddr-discrete
    lwproxy.Base.ℕ_discrete parse_query lwproxy.Text.pieces encode selected be_bytes
    lwproxy.Dns.put_records
handle_query_runs = refl

selected-IsChosen_example : IsChosen any (sevens ∷ local ∷ []) (selected any (sevens ∷ local ∷ []))
selected-IsChosen_example = selected-IsChosen any (sevens ∷ local ∷ [])

read-encode_example :
    read_reply (encode plain_buf any (sevens ∷ local ∷ []))
    ≡ some (selected any (sevens ∷ local ∷ []))
read-encode_example = read-encode plain_buf any (sevens ∷ local ∷ []) (omega arith)

hostname : IsWord is_whitespace host
hostname =
    (refl, (refl, (refl, (refl, (refl, (refl, (refl, (refl, (refl, (refl, (refl, tt)))))))))))

parse_query-query_example : parse_query (query host only_v4) ≡ ok (host, only_v4)
parse_query-query_example = parse_query-query b'e' (codes "xample.org") only_v4 hostname refl

handle_query-IsAnswered_example :
    IsAnswered
      (handle_query plain_buf resolver (query host any))
      (expected resolver (parse_query (query host any)))
handle_query-IsAnswered_example =
    handle_query-IsAnswered plain_buf resolver resolver-IsResolver (query host any)

run-answers_example :
    (replies : List Bytes) × (map read_reply replies
      ≡ map (λ q. some (expected resolver (parse_query q))) (query host any ∷ []))
    × (run plain_buf resolver (served (query host any ∷ [])) ≡ (replies, ok tt))
    × (run plain_buf resolver (served (query host any ∷ []) ++ ((host, false) ∷ []))
        ≡ (replies, err relay_closed))
run-answers_example =
    run-answers plain_buf resolver resolver-IsResolver (query host any ∷ []) host []
