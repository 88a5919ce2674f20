-- ===== src/Connect.antt =====
-- src/service/connectproxy.rs: the HTTP CONNECT proxy that clients reach at the proxy's address. The
-- hosts that the settings allow are an argument. What connections, the relay and the client answer is
-- in the events; what is done to them is a list of effects. Names go to the resolver with the call
-- that connects, and stay texts here.
pub mod Headers
pub mod Tunnels
pub mod Chunks
use lwproxy.Base.{
  ℕ, zero, suc, ◌+◌, Bool, true, false, not, ◌&&◌, List, [], ◌∷◌, ◌++◌, Option, none, some,
  if◌then◌else◌, take, drop, Bytes, is_some, is_empty,
}
use lwproxy.Result.{
  Result, ok, err, panic, ◌>>=◌, ◌>>◌, ensure, context, connect_no_header, connect_non_ascii,
  connect_missing_line, connect_bad_line, connect_bad_target, connect_bad_port, host_not_allowed,
  client_disconnected, io_error, relay_closed,
}
use lwproxy.Text.{
  is_ascii, text_eq, contains_text, split_char, split_ascii_whitespace, parse_u16, position_of,
  first_line,
}
use lwproxy.Code.{codes}
use lwproxy.Wire.{Buf}

abbrev pub success_reply : Bytes
success_reply =
    codes "HTTP/1.0 200 Connection Established\r\nProxy-agent: Apache/2.4.41 (Ubuntu)\r\n\r\n"

pub record ConnectHeader : Type 0 where
  pub host : Bytes
  pub port : ℕ

-- The blank line behind a header.
abbrev pub ending : Bytes
ending = 13 ∷ 10 ∷ 13 ∷ 10 ∷ []

unfoldable pub header_complete : Bytes → Bool
header_complete buf = is_some (position_of ending buf)

-- Three tokens, the first and last of them fixed.
abbrev pub request_target : List Bytes → Result Bytes
request_target (method ∷ target ∷ version ∷ []) = do
  ensure (text_eq method (codes "CONNECT") && text_eq version (codes "HTTP/1.1")) connect_bad_line
  ok target
request_target _ = err connect_bad_line

abbrev pub host_and_port : List Bytes → Result (Bytes × Bytes)
host_and_port (host ∷ port ∷ []) = ok (host, port)
host_and_port _ = err connect_bad_target

unfoldable pub parse_header : Bytes → Result (ConnectHeader × Bytes)
parse_header buf = do
  header_ending ← context (position_of ending buf) connect_no_header
  let header = take header_ending buf
  let remainder = drop (header_ending + 4) buf
  ensure (is_ascii header) connect_non_ascii
  firstline ← context (first_line header) connect_missing_line
  target ← request_target (split_ascii_whitespace firstline)
  (host, port_text) ← host_and_port (split_char b':' target)
  port ← context (parse_u16 port_text) connect_bad_port
  ok (record { host = host; port = port }, remainder)

pub record Tunnel : Type 0 where
  pub buffer : Option Bytes
  -- The two halves of the connection: whether they are there.
  pub conn_read : Bool
  pub conn_write : Bool

abbrev pub start : Tunnel
start = record { buffer = some []; conn_read = false; conn_write = false }

-- What came of an attempt to connect, a write and a send to the relay, where one is made.
pub record Answers : Type 0 where
  pub connects : Bool
  pub writes : Bool
  pub relays : Bool

pub data Event : Type 0 where
  -- A read from the remote; no bytes when it closed the connection, or an error.
  from_remote : Option Bytes → Answers → Event
  from_client : Bytes → Answers → Event
  client_gone : Event

pub data Effect : Type 0 where
  connect : Bytes → ℕ → Effect
  write_remote : Bytes → Effect
  to_client : Bytes → Effect

pub data Turn : Type 0 where
  goes_on : Tunnel → Turn
  ends : Result (Unit {0}) → Turn

abbrev pub relay : Tunnel → Bytes → Answers → Turn × List Effect
relay t bytes a = ((if a.relays then goes_on t else ends (err relay_closed)), to_client bytes ∷ [])

-- What follows on a connection: the remainder is written, and the client is told.
abbrev pub greet : Bytes → Answers → Turn × List Effect
greet remainder a =
    let connected : Tunnel = record { buffer = none; conn_read = true; conn_write = true } in
    let (turn, told) = relay connected success_reply a in
    if is_empty remainder
    then (turn, told)
    else if a.writes
    then (turn, write_remote remainder ∷ told)
    else (ends (err io_error), write_remote remainder ∷ [])

-- What follows on a whole header.
abbrev pub establish : List Bytes → Result (ConnectHeader × Bytes) → Answers → Turn × List Effect
establish allowed_hosts (err e) a = (ends (err e), [])
establish allowed_hosts panic a = (ends panic, [])
establish allowed_hosts (ok (header, remainder)) a =
    let (turn, effects) = greet remainder a in
    if contains_text allowed_hosts header.host
    then if a.connects
      then (turn, connect header.host header.port ∷ effects)
      else (ends (err io_error), connect header.host header.port ∷ [])
    else (ends (err host_not_allowed), [])

-- The loop goes on from the state that a turn leaves, if it leaves one.
abbrev pub continue_with : Turn × List Effect → (Tunnel → Turn × List Effect) → Turn × List Effect
continue_with (goes_on t, effects) rest = let (last, more) = rest t in (last, effects ++ more)
continue_with (ends r, effects) rest = (ends r, effects)

module _ (buf : Buf) (allowed_hosts : List Bytes) where
  open buf use {put_slice}

  -- A turn of the loop. The remote is read only when there is a connection.
  unfoldable pub step : Tunnel → Event → Turn × List Effect
  step t (from_remote none a) = if t.conn_read then (ends (err io_error), []) else (goes_on t, [])
  step t (from_remote (some bytes) a) =
      if t.conn_read
      then if is_empty bytes then (ends (ok tt), []) else relay t bytes a
      else (goes_on t, [])
  step t client_gone = (ends (err client_disconnected), [])
  step t (from_client bytes a) =
      if t.conn_write
      then ((if a.writes then goes_on t else ends (err io_error)), write_remote bytes ∷ [])
      else elim t.buffer [
        | none ↦ (goes_on t, [])
        | some held ↦
            let filled = put_slice held bytes in
            if header_complete filled
            then establish allowed_hosts (parse_header filled) a
            else (goes_on (record t { buffer = some filled }), [])
      ]

  -- The turns for the events in their order: the last turn, and all the effects.
  unfoldable pub run : Tunnel → List Event → Turn × List Effect
  run t [] = (goes_on t, [])
  run t (event ∷ events) = continue_with (step t event) (λ t'. run t' events)
