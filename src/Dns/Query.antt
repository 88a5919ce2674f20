-- ===== src/Dns/Query.antt =====
-- Queries, as a client writes them.
use lwproxy.Base.{
  ℕ, ◌≤◌, ◌≡◌, refl, ◌∙◌, ap, Bool, true, false, List, [], ◌∷◌, ◌++◌, map, Option, some, length,
  Bytes, All, ltb, arith, inl, inr, ◌≢◌,
}
use lwproxy.Result.{Result, ok, err, panic, Result-cases, relay_closed}
use lwproxy.Code.{codes}
use lwproxy.Net.{IpAddr, SocketAddr, IsIp}
use lwproxy.Wire.{Buf}
use lwproxy.Text.{is_ascii, is_whitespace, split_whitespace}
use lwproxy.Text.Words.{all-append, words_by-cons, IsWord}
use lwproxy.Dns.{
  Filter, only_v4, only_v6, any, max_records, do_lookup, selected, encode, parse_query,
  parse_tokens, handle_query, run,
}
use lwproxy.Dns.Records.{do_lookup-IsIp}
use lwproxy.Dns.Reply.{read_reply, read-encode, length-selected}

abbrev pub filter_name : Filter → Bytes
filter_name only_v4 = codes "A"
filter_name only_v6 = codes "AAAA"
filter_name any = codes "ANY"

abbrev pub query : Bytes → Filter → Bytes
query hostname filter = hostname ++ (b' ' ∷ filter_name filter)

filter_words : (filter : Filter) → split_whitespace (filter_name filter) ≡ filter_name filter ∷ []
unfolding lwproxy.Text.pieces
filter_words only_v4 = refl
filter_words only_v6 = refl
filter_words any = refl

filter_ascii : (filter : Filter) → is_ascii (b' ' ∷ filter_name filter) ≡ true
filter_ascii only_v4 = refl
filter_ascii only_v6 = refl
filter_ascii any = refl

parse_tokens-name :
    (h : Bytes) (filter : Filter) → parse_tokens (h ∷ filter_name filter ∷ []) ≡ ok (h, filter)
parse_tokens-name h only_v4 = refl
parse_tokens-name h only_v6 = refl
parse_tokens-name h any = refl

-- An ASCII hostname without blanks, a space and the name of a filter parse to that hostname and
-- filter.
pub parse_query-query :
    (c : ℕ) (hostname : Bytes) (filter : Filter)
    → IsWord is_whitespace (c ∷ hostname)
    → is_ascii (c ∷ hostname) ≡ true
    → parse_query (query (c ∷ hostname) filter) ≡ ok (c ∷ hostname, filter)
unfolding parse_query
parse_query-query c hostname filter w a =
    let type = filter_name filter in
    let whole : is_ascii (c ∷ hostname ++ (b' ' ∷ type)) ≡ true =
      all-append (λ x. ltb x 128) (c ∷ hostname) (b' ' ∷ type) a (filter_ascii filter) in
    let words : split_whitespace (c ∷ hostname ++ (b' ' ∷ type)) ≡ (c ∷ hostname) ∷ type ∷ [] =
      words_by-cons is_whitespace c b' ' hostname type w refl
      ∙ ap (◌∷◌ (c ∷ hostname)) (filter_words filter) in
    rw (whole, words) (parse_tokens-name (c ∷ hostname) filter)

-- The resolver gives addresses in range.
abbrev pub IsResolver : (Bytes → Option (List SocketAddr)) → Type 0
IsResolver lookup_host =
    (hostname : Bytes) (found : List SocketAddr)
    → lookup_host hostname ≡ some found
    → All (λ (s : SocketAddr). IsIp s.ip) found

parse_tokens-ne-panic : (words : List Bytes) → parse_tokens words ≢ panic
parse_tokens-ne-panic [] = ground arith
parse_tokens-ne-panic (h ∷ []) = ground arith
parse_tokens-ne-panic (h ∷ t ∷ []) = ground arith
parse_tokens-ne-panic (h ∷ t ∷ x ∷ xs) = ground arith

parse_query-ne-panic : (raw : Bytes) → parse_query raw ≢ panic
unfolding parse_query
parse_query-ne-panic raw = ground (arith, parse_tokens-ne-panic (split_whitespace raw))

-- The addresses for a query: none for a bad one or a name that is unknown.
abbrev pub expected : (Bytes → Option (List SocketAddr)) → Result (Bytes × Filter) → List IpAddr
expected lookup_host (ok (hostname, filter)) = selected filter (do_lookup lookup_host hostname)
expected lookup_host (err e) = []
expected lookup_host panic = []

abbrev pub IsAnswered : Result Bytes → List IpAddr → Type 0
IsAnswered answer records =
    (reply : Bytes) × (answer ≡ ok reply)
    × (read_reply reply ≡ some records)
    × (length records ≤ max_records)

-- The queries that find the relay open.
abbrev pub served : List Bytes → List (Bytes × Bool)
served [] = []
served (q ∷ queries) = (q, true) ∷ served queries

module _ (buf : Buf) (lookup_host : Bytes → Option (List SocketAddr))
    (resolves : IsResolver lookup_host) where
  -- For a resolver that gives addresses in range, every query, well-formed or not, is answered:
  -- with a reply that reads back as at most four records, which are those selected from the name's
  -- addresses, and none for a bad query. It never panics.
  pub handle_query-IsAnswered :
      (raw : Bytes)
      → IsAnswered (handle_query buf lookup_host raw) (expected lookup_host (parse_query raw))
  unfolding handle_query selected
  handle_query-IsAnswered raw = elim (Result-cases (parse_query raw)) [
    | inl ((h, filter), good) ↦
        rw (good, handle_query)
          (let addrs = do_lookup lookup_host h in
            (
              encode buf filter addrs,
              refl,
              read-encode buf filter addrs (do_lookup-IsIp lookup_host h (resolves h)),
              length-selected filter addrs,
            ))
    | inr (inl (e, bad)) ↦
        rw (bad, handle_query) (encode buf any [], refl, read-encode buf any [] tt, omega arith)
    | inr (inr bad) ↦ absurd (parse_query-ne-panic raw bad)
  ]

  -- For a resolver that gives addresses in range, the task answers every query in turn as long as
  -- the relay is open, each reply reading back as the records expected for its query, and ends
  -- well; it fails at the first reply that finds the relay closed, with the replies before it sent.
  pub run-answers :
      (queries : List Bytes) (last : Bytes) (rest : List (Bytes × Bool))
      → (replies : List Bytes) × (map read_reply replies
          ≡ map (λ q. some (expected lookup_host (parse_query q))) queries)
        × (run buf lookup_host (served queries) ≡ (replies, ok tt))
        × (run buf lookup_host (served queries ++ ((last, false) ∷ rest))
            ≡ (replies, err relay_closed))
  unfolding run
  run-answers [] last rest =
      let (reply, e, r, f) = handle_query-IsAnswered last in ([], refl, refl, rw (e, run) refl)
  run-answers (q ∷ queries) last rest =
      let (reply, e, r, f) = handle_query-IsAnswered q in
      let (replies, m, all_open, closed) = run-answers queries last rest in
      (reply ∷ replies, ground (arith, r, m), rw (e, run, all_open) refl, rw (e, run, closed) refl)
