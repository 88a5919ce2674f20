-- ===== src/Proxy.antt =====
-- The proxy and all of its clients: `run` and `run_inner` of src/websocket/client.rs and
-- src/webtransport/client.rs, from a client's arrival to the lease that it drops. A step is what one
-- client's task does on its own; the steps of all clients come in any order.
pub mod Counts
pub mod Readers
pub mod Sound
pub mod Arrivals
pub mod Moves
pub mod Reached
pub mod Safety
pub mod Draining
pub mod Bindings
pub mod Delivery
pub mod Outside
use lwproxy.Base.{
  ℕ, suc, ◌+◌, ite, ℕ_discrete, ◌≡◌, Bool, true, false, List, [], ◌∷◌, ◌++◌, Option, none, some,
  is_some, if◌then◌else◌,
}
use lwproxy.Result.{Result, ok, ◌>>=◌}
use lwproxy.Net.{SocketAddr}
use lwproxy.Wire.{Buf}
use lwproxy.Code.{Rng}
use lwproxy.Translate.{Sender}
use lwproxy.Lease
use lwproxy.Lease.{Lease}
use lwproxy.Service
use lwproxy.Service.{ProxyService, ProxyClientHandle}
use lwproxy.Commands.{Circumstances, World}
use lwproxy.Stream
use lwproxy.Stream.{Met}
use lwproxy.Socket
use lwproxy.Socket.{Message}

-- How far the task of a client is: in the handshakes of a WebSocket, in its session, with its session
-- ended and the lease that it leaves, or gone from the table of clients.
pub data Stage (S : Type 0) : Type 0 where
  greeting : Stage S
  on_stream : Stream.Session S → Stage S
  on_socket : Socket.Session S → Stage S
  ended removed : Option Lease → Sender → Stage S

pub record Client (S : Type 0) : Type 0 where
  pub handle : ProxyClientHandle
  pub stage : Stage S

pub record Proxy (S : Type 0) : Type 0 where
  pub world : World S
  pub clients : List (Client S)

module _ {S : Type 0} where
  -- The world with a service that has a new client, and the handle.
  abbrev pub with_client : World S → SocketAddr → ProxyClientHandle × World S
  with_client w addr =
      let (handle, service) = Service.new_client w.service addr in
      (handle, record w { service = service })

  -- `WebTransportClientRunner::run_inner`, once the request was accepted, up to its session.
  abbrev pub stream_comes : World S → SocketAddr → Sender → Client S × World S
  stream_comes w addr relay =
      let (handle, w') = with_client w addr in
      (record { handle = handle; stage = on_stream (Stream.new w' relay) }, w')

  -- `WebSocketClientRunner::run`, up to the handshakes.
  abbrev pub socket_comes : World S → SocketAddr → Client S × World S
  socket_comes w addr =
      let (handle, w') = with_client w addr in (record { handle = handle; stage = greeting }, w')

  -- `WebSocketClientRunner::run_inner`, up to the loop of `run_client`: the handshake of TLS, if
  -- there is one, and that of the WebSocket.
  abbrev pub greet : World S → Option Bool → Bool → Sender → Stage S
  greet w (some false) accepts relay = ended none relay
  greet w (some true) accepts relay =
      if accepts then on_socket (Socket.new w relay) else ended none relay
  greet w none accepts relay = if accepts then on_socket (Socket.new w relay) else ended none relay

  -- Where a turn leaves the client, and the world; `none` when it panics or its fuel is out.
  abbrev pub after_stream : Stream.Turn S → Option (Stage S × World S)
  after_stream (Stream.goes_on s) = some (on_stream s, s.world)
  after_stream (Stream.fails e s) = some (ended s.lease s.relay_rx, s.world)
  after_stream Stream.panics = none
  after_stream Stream.tires = none

  abbrev pub after_socket : Socket.Turn S → Option (Stage S × World S)
  after_socket (Socket.goes_on s) = some (on_socket s, s.world)
  after_socket (Socket.closes s) = some (ended s.lease s.relay_rx, s.world)
  after_socket (Socket.fails e s) = some (ended s.lease s.relay_rx, s.world)
  after_socket Socket.panics = none
  after_socket Socket.tires = none

  -- `remove_client`, at the end of a client's task.
  abbrev pub remove : World S → ProxyClientHandle → Result (World S)
  remove w handle = do
    service ← Service.remove_client w.service handle
    ok (record w { service = service })

  -- A lease that is dropped.
  abbrev pub drop_lease : World S → ℕ → Option Lease → World S
  drop_lease w now none = w
  drop_lease w now (some l) = record w {
    service = record w.service { network = Lease.close w.service.network now l };
  }

  -- Whether the task of a client reads, or has read, a channel, and how many do.
  abbrev pub reading : Sender → Stage S → ℕ
  reading r greeting = 0
  reading r (on_stream s) = ite (ℕ_discrete r s.relay_rx) 1 0
  reading r (on_socket s) = ite (ℕ_discrete r s.relay_rx) 1 0
  reading r (ended l rx) = ite (ℕ_discrete r rx) 1 0
  reading r (removed l rx) = ite (ℕ_discrete r rx) 1 0

  unfoldable pub readers : Sender → List (Client S) → ℕ
  readers r [] = 0
  readers r (c ∷ cs) = reading r c.stage + readers r cs

  -- What can happen to a session: a relay speaks only once a lease holds it, the library hands out
  -- whole messages, and what other clients do is a step of theirs.
  abbrev pub StreamMeets : Stream.Session S → Stream.Event S → Type 0
  StreamMeets s (Stream.relayed bytes hears sends) = is_some s.lease ≡ true
  StreamMeets s (Stream.elsewhere w) = ⊥
  StreamMeets s event = Unit

  abbrev pub SocketMeets : Socket.Event S → Type 0
  SocketMeets (Socket.arrives (Socket.frame bytes) hears sends) = ⊥
  SocketMeets (Socket.elsewhere w) = ⊥
  SocketMeets event = Unit

  abbrev pub start : S → Proxy S
  start seed = record { world = record { service = Service.new; seed = seed }; clients = [] }

module _ {S : Type 0} (buf : Buf) (rng : Rng S) where
  -- A turn of a session, in the world as the other clients left it.
  abbrev pub stream_turn :
      (ℕ → Met) → World S → Stream.Session S → Stream.Event S → Option (Stage S × World S)
  stream_turn meets w s event =
      after_stream (Stream.step buf rng meets (record s { world = w }) event).0

  abbrev pub socket_turn :
      (ℕ → Circumstances) → World S → Socket.Session S → Socket.Event S → Option (Stage S × World S)
  socket_turn meets w s event =
      after_socket (Socket.step buf rng meets (record s { world = w }) event).0

  -- A channel that is made is one that no task reads.
  pub data Step (p : Proxy S) : Proxy S → Type 0 where
    stream_arrives :
        (addr : SocketAddr) (relay : Sender)
        → readers relay p.clients ≡ 0
        → Step p (record {
          world = (stream_comes p.world addr relay).1;
          clients = (stream_comes p.world addr relay).0 ∷ p.clients;
        })
    socket_arrives :
        (addr : SocketAddr)
        → Step p (record {
          world = (socket_comes p.world addr).1;
          clients = (socket_comes p.world addr).0 ∷ p.clients;
        })
    greets :
        (before : List (Client S)) (handle : ProxyClientHandle) (after : List (Client S))
        (tls : Option Bool) (accepts : Bool) (relay : Sender)
        → p.clients ≡ before ++ (record { handle = handle; stage = greeting } ∷ after)
        → readers relay p.clients ≡ 0
        → Step p (record {
          world = p.world;
          clients =
              before
              ++ (record { handle = handle; stage = greet p.world tls accepts relay } ∷ after);
        })
    streams :
        (before : List (Client S)) (handle : ProxyClientHandle) (after : List (Client S))
        (s : Stream.Session S) (meets : ℕ → Met) (event : Stream.Event S) (stage : Stage S)
        (w : World S)
        → p.clients ≡ before ++ (record { handle = handle; stage = on_stream s } ∷ after)
        → StreamMeets s event
        → stream_turn meets p.world s event ≡ some (stage, w)
        → Step p (record {
          world = w;
          clients = before ++ (record { handle = handle; stage = stage } ∷ after);
        })
    talks :
        (before : List (Client S)) (handle : ProxyClientHandle) (after : List (Client S))
        (s : Socket.Session S) (meets : ℕ → Circumstances) (event : Socket.Event S)
        (stage : Stage S) (w : World S)
        → p.clients ≡ before ++ (record { handle = handle; stage = on_socket s } ∷ after)
        → SocketMeets event
        → socket_turn meets p.world s event ≡ some (stage, w)
        → Step p (record {
          world = w;
          clients = before ++ (record { handle = handle; stage = stage } ∷ after);
        })
    removes :
        (before : List (Client S)) (handle : ProxyClientHandle) (after : List (Client S))
        (l : Option Lease) (rx : Sender) (w : World S)
        → p.clients ≡ before ++ (record { handle = handle; stage = ended l rx } ∷ after)
        → remove p.world handle ≡ ok w
        → Step p (record {
          world = w;
          clients = before ++ (record { handle = handle; stage = removed l rx } ∷ after);
        })
    -- The lease of an answer that was not sent is dropped before the client is removed.
    drops_early :
        (before : List (Client S)) (handle : ProxyClientHandle) (after : List (Client S))
        (l : Option Lease) (rx : Sender) (now : ℕ)
        → p.clients ≡ before ++ (record { handle = handle; stage = ended l rx } ∷ after)
        → Step p (record {
          world = drop_lease p.world now l;
          clients = before ++ (record { handle = handle; stage = ended none rx } ∷ after);
        })
    drops :
        (before : List (Client S)) (handle : ProxyClientHandle) (after : List (Client S))
        (l : Option Lease) (rx : Sender) (now : ℕ)
        → p.clients ≡ before ++ (record { handle = handle; stage = removed l rx } ∷ after)
        → Step p (record { world = drop_lease p.world now l; clients = before ++ after })

  -- How many clients have come, when so many had before a step.
  abbrev pub coming : {p q : Proxy S} → ℕ → Step p q → ℕ
  coming n (stream_arrives addr relay fresh) = suc n
  coming n (socket_arrives addr) = suc n
  coming n other = n

  -- After so many clients have come.
  pub data Reach : ℕ → Proxy S → Type 0 where
    here : (seed : S) → Reach 0 (start seed)
    next : {n : ℕ} {p q : Proxy S} → Reach n p → (st : Step p q) → Reach (coming n st) q
