-- ===== src/Connect/Headers.antt =====
-- Headers in a stream: where they end, and what is behind them.
use lwproxy.Base.{
  ℕ, zero, suc, ◌+◌, ◌<◌, ◌^◌, ◌≡◌, ◌≢◌, refl, ◌∙◌, ap, true, List, [], ◌∷◌, ◌++◌, Option, none,
  some, take, drop, length, Bytes, is_some, arith,
}
use mathlib.Core.Option
use mathlib.Core.Bool.{false≢true}
use lwproxy.Result.{
  ok_inj, Result, ok, panic, context, ensure, bind_ok, bind_panic, context_ok, context-ne-panic,
  ensure_ok, ensure-ne-panic, connect_no_header, connect_non_ascii, connect_missing_line,
  connect_bad_port,
}
use lwproxy.Text.{
  strip_prefix, position_of, parse_u16, is_ascii, first_line, split_char, split_ascii_whitespace,
}
use lwproxy.Text.Words.{parse_u16-lt}
use lwproxy.Connect.{
  ending, header_complete, parse_header, ConnectHeader, request_target, host_and_port,
}

-- A text that starts with a prefix does so with more behind it.
strip_prefix-append :
    (p s t : Bytes) → is_some (strip_prefix p s) ≡ true → is_some (strip_prefix p (s ++ t)) ≡ true
strip_prefix-append [] s t h = refl
strip_prefix-append (x ∷ p) [] t h = absurd (false≢true h)
strip_prefix-append (x ∷ p) (c ∷ s) t h = ground (arith, strip_prefix-append p s t)

is_some-map : (o : Option ℕ) → is_some (Option.map suc o) ≡ is_some o
is_some-map none = refl
is_some-map (some n) = refl

pub position_of-append :
    (p s t : Bytes) → is_some (position_of p s) ≡ true → is_some (position_of p (s ++ t)) ≡ true
unfolding position_of
position_of-append p [] t h = absurd (false≢true h)
position_of-append p (c ∷ s) t h = ground (
  arith,
  strip_prefix-append p (c ∷ s) t,
  position_of-append p s t,
  is_some-map (position_of p s),
  is_some-map (position_of p (s ++ t)),
)

pub header_complete-append :
    (s t : Bytes) → header_complete s ≡ true → header_complete (s ++ t) ≡ true
unfolding header_complete
header_complete-append s t h = position_of-append ending s t h

strip_prefix-eq : (p s : Bytes) → is_some (strip_prefix p s) ≡ true → s ≡ p ++ drop (length p) s
strip_prefix-eq [] s h = refl
strip_prefix-eq (x ∷ p) [] h = absurd (false≢true h)
strip_prefix-eq (x ∷ p) (c ∷ s) h = ground (arith, strip_prefix-eq p s)

map-suc-some : (o : Option ℕ) (m : ℕ) → Option.map suc o ≡ some (suc m) → o ≡ some m
map-suc-some none m h = cc
map-suc-some (some k) m h = ground arith

map-suc-zero : (o : Option ℕ) → Option.map suc o ≢ some 0
map-suc-zero none h = cc
map-suc-zero (some k) h = ground arith

-- Where a pattern is found, the text is what is before, the pattern, and the rest.
position_of-splits :
    (p s : Bytes) (n : ℕ) → position_of p s ≡ some n → s ≡ take n s ++ (p ++ drop (n + length p) s)
unfolding position_of
position_of-splits p [] n h = cc
position_of-splits p (c ∷ s) zero h =
    let k : length p ≡ 0 + length p = omega arith in
    strip_prefix-eq p (c ∷ s) (ground (arith, map-suc-zero (position_of p s)))
    ∙ ap (λ (i : ℕ). p ++ drop i (c ∷ s)) k
position_of-splits p (c ∷ s) (suc m) h =
    let k : suc (m + length p) ≡ suc m + length p = omega arith in
    ap (◌∷◌ c) (position_of-splits p s m (ground (arith, map-suc-some (position_of p s) m)))
    ∙ ap (λ (i : ℕ). c ∷ take m s ++ (p ++ drop i (c ∷ s))) k

ends_well :
    (buf : Bytes) (n port : ℕ) (host : Bytes) (h : ConnectHeader) (remainder : Bytes)
    → Path
        (Result (ConnectHeader × Bytes))
        (ok (record { host = host; port = port }, drop (n + 4) buf))
        (ok (h, remainder))
    → position_of ending buf ≡ some n
    → port < 2 ^ 16
    → (buf ≡ take n buf ++ (ending ++ remainder)) × (h.port < 2 ^ 16)
ends_well buf n port host h remainder e found small =
    let same = ok_inj e in
    (
      position_of-splits ending buf n found ∙ ap (λ r. take n buf ++ (ending ++ r.1)) same,
      omega (arith, ap (λ r. r.0.port) same, small),
    )

-- Bytes that parse as a header are ASCII text, a blank line and exactly the remainder; they count
-- as complete, and the port has 16 bits.
pub parse_header-splits :
    (buf : Bytes) (h : ConnectHeader) (remainder : Bytes)
    → parse_header buf ≡ ok (h, remainder)
    → (header : Bytes) × (buf ≡ header ++ (ending ++ remainder))
      × (is_ascii header ≡ true)
      × (h.port < 2 ^ 16)
      × (header_complete buf ≡ true)
unfolding parse_header header_complete
parse_header-splits buf h remainder e =
    let (n, found, e1) =
      bind_ok (context (position_of ending buf) connect_no_header) _ (h, remainder) e in
    let (u, ascii, e2) =
      bind_ok (ensure (is_ascii (take n buf)) connect_non_ascii) _ (h, remainder) e1 in
    let (line, has_line, e3) =
      bind_ok (context (first_line (take n buf)) connect_missing_line) _ (h, remainder) e2 in
    let (target, good, e4) =
      bind_ok (request_target (split_ascii_whitespace line)) _ (h, remainder) e3 in
    let (pair, two, e5) = bind_ok (host_and_port (split_char b':' target)) _ (h, remainder) e4 in
    let (port, number, e6) =
      bind_ok (context (parse_u16 pair.1) connect_bad_port) _ (h, remainder) e5 in
    let there : position_of ending buf ≡ some n =
      context_ok (position_of ending buf) connect_no_header n found in
    let small : port < 2 ^ 16 =
      parse_u16-lt pair.1 port (context_ok (parse_u16 pair.1) connect_bad_port port number) in
    let (split, h_small) = ends_well buf n port pair.0 h remainder e6 there small in
    (take n buf, split, ensure_ok _ connect_non_ascii u ascii, h_small, rw there refl)

target-ne-panic : (l : List Bytes) → request_target l ≢ panic
target-ne-panic [] = ground arith
target-ne-panic (a ∷ []) = ground arith
target-ne-panic (a ∷ b ∷ []) = ground arith
target-ne-panic (a ∷ b ∷ c ∷ []) = ground arith
target-ne-panic (a ∷ b ∷ c ∷ d ∷ l) = ground arith

host-ne-panic : (l : List Bytes) → host_and_port l ≢ panic
host-ne-panic [] = ground arith
host-ne-panic (a ∷ []) = ground arith
host-ne-panic (a ∷ b ∷ []) = ground arith
host-ne-panic (a ∷ b ∷ c ∷ l) = ground arith

-- Parsing a header never panics.
pub parse_header-ne-panic : (buf : Bytes) → parse_header buf ≢ panic
unfolding parse_header
parse_header-ne-panic buf =
    bind_panic _ _ (context-ne-panic (position_of ending buf) connect_no_header) (λ n.
      bind_panic _ _ (ensure-ne-panic (is_ascii (take n buf)) connect_non_ascii) (λ u.
        bind_panic _ _ (context-ne-panic (first_line (take n buf)) connect_missing_line) (λ line.
          bind_panic _ _ (target-ne-panic (split_ascii_whitespace line)) (λ target.
            bind_panic _ _ (host-ne-panic (split_char b':' target)) (λ pair.
              bind_panic _ _ (context-ne-panic (parse_u16 pair.1) connect_bad_port)
                (λ port. ground arith))))))
