-- ===== src/Listen.antt =====
-- src/websocket/listener.rs, src/websocket/runner.rs, src/webtransport/listener.rs and
-- src/webtransport/runner.rs: all listeners, and the loops that accept connections.
-- A step is what one listener or one client does on its own; they come in any order.
pub mod Places
pub mod Serving
use lwproxy.Base.{
  ℕ, suc, ◌≡◌, Bool, is_some, true, false, List, [], ◌∷◌, ◌++◌, Option, none, some, if◌then◌else◌,
}
use lwproxy.Result.{
  Result, ok, err, panic, ◌>>=◌, unwrap, bind_refused, tls_refused, channel_closed,
}
use lwproxy.Net.{SocketAddr}
use lwproxy.Wire.{Buf}
use lwproxy.Code.{Rng}
use lwproxy.Translate.{Sender}
use lwproxy.Endpoint.{
  Loop, socket_loop, stream_loop, SocketListener, Start, Listener, socket, Place, start, stop,
  runner_of,
}
use lwproxy.Proxy
use lwproxy.Proxy.{Proxy, readers, stream_comes, socket_comes}

module _ {S : Type 0} where
  -- A turn of `run_inner`: the client of a connection runs in a task of its own.
  abbrev pub accepted_socket : SocketAddr → Proxy S → Proxy S
  accepted_socket addr p = record {
    world = (socket_comes p.world addr).1;
    clients = (socket_comes p.world addr).0 ∷ p.clients;
  }

  -- With the relay of the session, which begins with the client.
  abbrev pub accepted_stream : SocketAddr → Sender → Proxy S → Proxy S
  accepted_stream addr relay p = record {
    world = (stream_comes p.world addr relay).1;
    clients = (stream_comes p.world addr relay).0 ∷ p.clients;
  }

  -- Without an address, or a request that can be accepted, the task ends at once.
  unfoldable pub accepted : Loop → Option SocketAddr → Sender → Proxy S → Proxy S
  accepted loop none relay p = p
  accepted (socket_loop tls) (some addr) relay p = accepted_socket addr p
  accepted (stream_loop cert) (some addr) relay p = accepted_stream addr relay p

pub record Server (S : Type 0) : Type 0 where
  pub proxy : Proxy S
  pub places : List Place

abbrev pub with_connection : ℕ → Option SocketAddr → ℕ
with_connection n none = n
with_connection n (some addr) = suc n

module _ {S : Type 0} (buf : Buf) (rng : Rng S) where
  pub data Step (y : Server S) : Server S → Type 0 where
    moves :
        (q : Proxy S)
        → Proxy.Step buf rng y.proxy q
        → Step y (record { proxy = q; places = y.places })
    opens :
        (l : Listener)
        → runner_of l ≡ none
        → Step y
            (record { proxy = y.proxy; places = record { listener = l; loop = none } ∷ y.places })
    begins :
        (before : List Place) (place : Place) (after : List Place) (how : Start) (begun : Place)
        → y.places ≡ before ++ (place ∷ after)
        → start place.listener how ≡ ok begun
        → Step y (record { proxy = y.proxy; places = before ++ (begun ∷ after) })
    stops :
        (before : List Place) (l l' : SocketListener) (loop : Option Loop) (after : List Place)
        → y.places ≡ before ++ (record { listener = socket l; loop = loop } ∷ after)
        → stop l (is_some loop) ≡ ok l'
        → Step y (record {
          proxy = y.proxy;
          places = before ++ (record { listener = socket l'; loop = loop } ∷ after);
        })
    takes :
        (before : List Place) (l : Listener) (loop : Loop) (after : List Place)
        (addr : Option SocketAddr) (relay : Sender)
        → y.places ≡ before ++ (record { listener = l; loop = some loop } ∷ after)
        → readers relay y.proxy.clients ≡ 0
        → Step y (record { proxy = accepted loop addr relay y.proxy; places = y.places })
    -- The loop is over once nothing can be accepted.
    refuses :
        (before : List Place) (l : Listener) (loop : Loop) (after : List Place)
        → y.places ≡ before ++ (record { listener = l; loop = some loop } ∷ after)
        → Step y (record {
          proxy = y.proxy;
          places = before ++ (record { listener = l; loop = none } ∷ after);
        })

  -- How many clients have come, when so many had before a step.
  abbrev pub coming : {y z : Server S} → ℕ → Step y z → ℕ
  coming n (moves q st) = Proxy.coming buf rng n st
  coming n (takes before l loop after addr relay e fresh) = with_connection n addr
  coming n other = n

  pub data Reach : ℕ → Server S → Type 0 where
    here : (seed : S) → Reach 0 (record { proxy = Proxy.start seed; places = [] })
    next : {n : ℕ} {y z : Server S} → Reach n y → (st : Step y z) → Reach (coming n st) z
