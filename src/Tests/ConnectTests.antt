-- ===== src/Tests/ConnectTests.antt =====
-- The HTTP CONNECT proxy: a client that sends its header in two pieces.
use lwproxy.Base.{
  ◌≡◌, refl, [], ◌∷◌, ◌++◌, List, true, false, Bytes, All, ◌<◌, ◌^◌, map, if◌then◌else◌, is_empty,
}
use lwproxy.Result.{ok}
use lwproxy.Text.{is_ascii}
use lwproxy.Wire.Model.{plain_buf}
use lwproxy.Code.{codes}
use lwproxy.Connect.{
  ConnectHeader, ending, header_complete, parse_header, start, from_client, run, goes_on, connect,
  write_remote, to_client, success_reply,
}
use lwproxy.Connect.Headers.{parse_header-splits}
use lwproxy.Connect.Tunnels.{IsAllowed, run-IsAllowed}
use lwproxy.Connect.Chunks.{fine, client, joined, connected, run-in_chunks, run-connects}

abbrev piece : Bytes
piece = codes "CONNECT a.b:80 HT"

abbrev rest : Bytes
rest = codes "TP/1.1\r\n\r\nhi"

abbrev target : ConnectHeader
target = record { host = codes "a.b"; port = 80 }

abbrev hosts : List Bytes
hosts = codes "a.b" ∷ []

parse_runs : parse_header (piece ++ rest) ≡ ok (target, codes "hi")
unfolding parse_header lwproxy.Text.position_of lwproxy.Text.pieces lwproxy.Text.parse_u16
    lwproxy.Text.u16_digits
parse_runs = refl

piece_incomplete : header_complete (joined ((piece, fine) ∷ [])) ≡ false
unfolding header_complete lwproxy.Text.position_of
piece_incomplete = refl

parse_header-splits_example :
    (header : Bytes) × (piece ++ rest ≡ header ++ (ending ++ codes "hi"))
    × (is_ascii header ≡ true)
    × (target.port < 2 ^ 16)
    × (header_complete (piece ++ rest) ≡ true)
parse_header-splits_example = parse_header-splits (piece ++ rest) target (codes "hi") parse_runs

run-IsAllowed_example :
    All (IsAllowed hosts) (run plain_buf hosts start (from_client (piece ++ rest) fine ∷ [])).1
run-IsAllowed_example = run-IsAllowed plain_buf hosts start (from_client (piece ++ rest) fine ∷ [])

run-in_chunks_example :
    run plain_buf hosts start (map client ((piece, fine) ∷ []) ++ (from_client rest fine ∷ []))
    ≡ run plain_buf hosts start (from_client (joined ((piece, fine) ∷ []) ++ rest) fine ∷ [])
run-in_chunks_example =
    run-in_chunks plain_buf hosts ((piece, fine) ∷ []) rest fine [] piece_incomplete

run-connects_example :
    run plain_buf hosts start
      (from_client (piece ++ rest) fine ∷ map (λ b. from_client b fine) ((1 ∷ []) ∷ []))
    ≡ (
      goes_on connected,
      connect target.host target.port
            ∷ (if is_empty (codes "hi") then [] else write_remote (codes "hi") ∷ [])
          ++ (to_client success_reply ∷ map write_remote ((1 ∷ []) ∷ [])),
    )
run-connects_example =
    run-connects plain_buf hosts (piece ++ rest) target (codes "hi") ((1 ∷ []) ∷ []) parse_runs refl
