-- ===== src/Dns.antt =====
-- src/service/dnsproxy.rs: the resolver that clients reach at the proxy's address. The system's
-- resolver is an argument: a hostname leads to socket addresses, or fails.
pub mod Query
pub mod Reply
pub mod Records
pub mod Choice
use lwproxy.Base.{
  ℕ, zero, suc, ◌+◌, ◌%◌, ◌^◌, Bool, true, false, not, ◌&&◌, List, [], ◌∷◌, ◌++◌, Option, none,
  some, if◌then◌else◌, keep, take, length, Bytes, is_some,
}
use lwproxy.Result.{
  Result, ok, err, panic, ◌>>=◌, ◌>>◌, ensure, context, Error, dns_non_ascii, dns_empty_query,
  dns_no_type, dns_unknown_type, dns_trailing_data, relay_closed,
}
use lwproxy.Text.{is_ascii, split_whitespace, text_eq}
use lwproxy.Code.{codes}
use lwproxy.Net.{IpAddr, v4, v6, SocketAddr, IpAddr-discrete, is_ipv4, is_ipv6}
use lwproxy.HashMap.Entries.{contains}
use lwproxy.Wire.{Buf, be_bytes}

abbrev pub max_records : ℕ
max_records = 4

abbrev pub tag_ipv4 : ℕ
tag_ipv4 = 4

abbrev pub tag_ipv6 : ℕ
tag_ipv6 = 6

pub data Filter : Type 0 where
  only_v4 only_v6 any : Filter

abbrev pub accepts : Filter → IpAddr → Bool
accepts only_v4 address = is_ipv4 address
accepts only_v6 address = is_ipv6 address
accepts any address = true

abbrev pub parse_filter : Bytes → Result Filter
parse_filter t =
    if text_eq t (codes "A")
    then ok only_v4
    else if text_eq t (codes "AAAA")
    then ok only_v6
    else if text_eq t (codes "ANY")
    then ok any
    else err dns_unknown_type

-- The tokens of a query, taken one by one.
abbrev pub parse_tokens : List Bytes → Result (Bytes × Filter)
parse_tokens [] = err dns_empty_query
parse_tokens (hostname ∷ []) = err dns_no_type
parse_tokens (hostname ∷ t ∷ rest) = do
  filter ← parse_filter t
  ensure (not (is_some (first rest))) dns_trailing_data
  ok (hostname, filter)
  where
    first : List Bytes → Option Bytes
    first [] = none
    first (x ∷ xs) = some x

unfoldable pub parse_query : Bytes → Result (Bytes × Filter)
parse_query raw = do ensure (is_ascii raw) dns_non_ascii; parse_tokens (split_whitespace raw)

-- The loop over the addresses found, in their order.
unfoldable pub dedup : List SocketAddr → List IpAddr → List IpAddr
dedup [] addrs = addrs
dedup (found ∷ rest) addrs =
    dedup rest (if contains IpAddr-discrete addrs found.ip then addrs else addrs ++ (found.ip ∷ []))

unfoldable pub do_lookup : (Bytes → Option (List SocketAddr)) → Bytes → List IpAddr
do_lookup lookup_host hostname = elim (lookup_host hostname) [
  | none ↦ []
  | some found ↦ dedup found []
]

unfoldable pub selected : Filter → List IpAddr → List IpAddr
selected filter addrs = take max_records (
    keep (λ a. is_ipv6 a && accepts filter a) addrs
    ++ keep (λ a. is_ipv4 a && accepts filter a) addrs)

module _ (buf : Buf) where
  open buf use {put_u8, put_slice}

  unfoldable pub put_records : Bytes → List IpAddr → Bytes
  put_records buffer [] = buffer
  put_records buffer (v4 a ∷ rest) =
      put_records (put_slice (put_u8 buffer tag_ipv4) (be_bytes 4 a)) rest
  put_records buffer (v6 a ∷ rest) =
      put_records (put_slice (put_u8 buffer tag_ipv6) (be_bytes 16 a)) rest

  unfoldable pub encode : Filter → List IpAddr → Bytes
  encode filter addrs =
      put_records (put_u8 [] (length (selected filter addrs) % 2 ^ 8)) (selected filter addrs)

  unfoldable pub handle_query : (Bytes → Option (List SocketAddr)) → Bytes → Result Bytes
  handle_query lookup_host raw = elim (parse_query raw) [
    | ok (hostname, filter) ↦ ok (encode filter (do_lookup lookup_host hostname))
    | err _ ↦ ok (encode any [])
    | panic ↦ panic
  ]

  -- The task behind a lease: the queries in turn, each with whether the relay is still open when its
  -- answer is sent. What the relay is sent, and how the task ends when no more queries come.
  unfoldable pub run :
      (Bytes → Option (List SocketAddr)) → List (Bytes × Bool) → List Bytes × Result (Unit {0})
  run lookup_host [] = ([], ok tt)
  run lookup_host ((query, relay_open) ∷ rest) =
      let (sent, end) = run lookup_host rest in
      elim (handle_query lookup_host query) [
        | ok reply ↦ if relay_open then (reply ∷ sent, end) else ([], err relay_closed)
        | err e ↦ ([], err e)
        | panic ↦ ([], panic)
      ]
