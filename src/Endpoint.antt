-- ===== src/Endpoint.antt =====
-- src/websocket/listener.rs, src/websocket/runner.rs, src/webtransport/listener.rs and
-- src/webtransport/runner.rs: listeners, and their start and stop.
use lwproxy.Base.{Bool, true, false, List, Option, none, some, if◌then◌else◌, Bytes}
use lwproxy.Result.{
  Result, ok, err, panic, ◌>>=◌, unwrap, bind_refused, tls_refused, channel_closed,
}
use lwproxy.Net.{SocketAddr}

pub record TlsCert : Type 0 where
  pub chain : List Bytes
  pub key : Bytes

-- What the settings of TLS and the bind of the address make of a listener.
pub data Start : Type 0 where
  starts refuses_tls refuses_bind : Start

-- The task of an accept loop: `WebSocketProxyRunner`, with what its acceptor of TLS was made of, and
-- `WebTransportProxyRunner`, with the certificate that its server was built with.
pub data Loop : Type 0 where
  socket_loop : Option TlsCert → Loop
  stream_loop : TlsCert → Loop

-- `WebSocketProxyRunnerHandle`, `WebTransportProxyRunnerHandle`: what was sent on the channel last.
pub record RunnerHandle : Type 0 where
  pub stop : Bool
  pub join : Option Loop

pub record SocketListener : Type 0 where
  pub bind_addr : SocketAddr
  pub tls : Option TlsCert
  pub runner : Option RunnerHandle

pub record StreamListener : Type 0 where
  pub bind_addr : SocketAddr
  pub cert : TlsCert
  pub runner : Option RunnerHandle

-- `WebSocketProxyListener::new`
abbrev pub new_socket : SocketAddr → SocketListener
new_socket bind_addr = record { bind_addr = bind_addr; tls = none; runner = none }

-- `WebSocketProxyListener::new_secure`, if `rustls` takes the certificate.
abbrev pub new_secure : SocketAddr → TlsCert → Bool → Result SocketListener
new_secure bind_addr cert valid =
    if valid
    then ok (record { bind_addr = bind_addr; tls = some cert; runner = none })
    else err tls_refused

-- `WebTransportProxyListener::new`
abbrev pub new_stream : SocketAddr → TlsCert → StreamListener
new_stream bind_addr cert = record { bind_addr = bind_addr; cert = cert; runner = none }

-- `run` of a runner: the handle, with the task that it spawns.
abbrev pub run_socket : Option TlsCert → RunnerHandle
run_socket tls = record { stop = false; join = some (socket_loop tls) }

abbrev pub run_stream : TlsCert → RunnerHandle
run_stream cert = record { stop = false; join = some (stream_loop cert) }

-- `self.runner.as_mut().unwrap().join.take().unwrap()`
abbrev pub take_join : Option RunnerHandle → Result (Loop × Option RunnerHandle)
take_join runner = do
  handle ← unwrap runner
  join ← unwrap handle.join
  ok (join, some (record handle { join = none }))

-- `start`, behind its assertion: whether the address can be bound.
abbrev pub bound_socket : SocketListener → Bool → Result (Loop × SocketListener)
bound_socket l false = err bind_refused
bound_socket l true = do
  (loop, runner) ← take_join (some (run_socket l.tls))
  ok (loop, record l { runner = runner })

unfoldable pub start_socket : SocketListener → Bool → Result (Loop × SocketListener)
start_socket l binds = elim l.runner [ some _ ↦ panic | none ↦ bound_socket l binds ]

abbrev pub bound_stream : StreamListener → Start → Result (Loop × StreamListener)
bound_stream l refuses_tls = err tls_refused
bound_stream l refuses_bind = err bind_refused
bound_stream l starts = do
  (loop, runner) ← take_join (some (run_stream l.cert))
  ok (loop, record l { runner = runner })

unfoldable pub start_stream : StreamListener → Start → Result (Loop × StreamListener)
start_stream l how = elim l.runner [ some _ ↦ panic | none ↦ bound_stream l how ]

-- Sending on the channel fails once the loop, which holds the receiver, is over.
unfoldable pub stop : SocketListener → Bool → Result SocketListener
stop l loops = elim l.runner [
  | none ↦ ok l
  | some handle ↦
      if loops
      then ok (record l { runner = some (record handle { stop = true }) })
      else err channel_closed
]

-- A listener, and its loop while that runs.
pub data Listener : Type 0 where
  socket : SocketListener → Listener
  stream : StreamListener → Listener

pub record Place : Type 0 where
  pub listener : Listener
  pub loop : Option Loop

-- What the libraries answer at the start of a listener; the TLS of a `SocketListener` is settled by
-- then.
abbrev pub can_bind : Start → Bool
can_bind starts = true
can_bind refuses_tls = false
can_bind refuses_bind = false

abbrev pub placed_socket : Result (Loop × SocketListener) → Result Place
placed_socket r = do (loop, l) ← r; ok (record { listener = socket l; loop = some loop })

abbrev pub placed_stream : Result (Loop × StreamListener) → Result Place
placed_stream r = do (loop, l) ← r; ok (record { listener = stream l; loop = some loop })

abbrev pub start : Listener → Start → Result Place
start (socket l) how = placed_socket (start_socket l (can_bind how))
start (stream l) how = placed_stream (start_stream l how)

abbrev pub is_valid : Start → Bool
is_valid starts = true
is_valid refuses_tls = false
is_valid refuses_bind = true

abbrev pub runner_of : Listener → Option RunnerHandle
runner_of (socket l) = l.runner
runner_of (stream l) = l.runner
