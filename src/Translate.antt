-- ===== src/Translate.antt =====
-- src/service/net/network.rs, `translate` and `relay_reply`: the task that carries one bound port's
-- traffic to and from the open internet. A turn of its loop is a step on an event; what sockets and
-- channels answer is part of the event, and what it does to them is the list of effects.
pub mod Replies
use lwproxy.Base.{
  ℕ, Bool, true, false, not, List, [], ◌∷◌, Option, none, some, leb, if◌then◌else◌, length, take,
  Bytes,
}
use lwproxy.Result.{Result, ok, err, panic, ◌>>=◌}
use lwproxy.Net.{IpAddr, v4, v6, SocketAddr, is_ipv4}
use lwproxy.Wire.{Buf}
use lwproxy.Frame.{to_peer, encode}

-- The sending half of an unbounded channel, by a number of its own.
abbrev pub Sender : Type 0
Sender = ℕ

-- An address and a port on it.
abbrev pub RouteKey : Type 0
RouteKey = ℕ × ℕ

abbrev pub max_datagram : ℕ
max_datagram = 4096

pub data Family : Type 0 where
  ipv4 ipv6 : Family

abbrev pub family : SocketAddr → Family
family peer = if is_ipv4 peer.ip then ipv4 else ipv6

pub data Effect : Type 0 where
  -- `UdpSocket::bind` on the wildcard address of a family.
  open_socket : Family → Effect
  send_to : Family → SocketAddr → Bytes → Effect
  relay_frame : Sender → Bytes → Effect

pub record Translator : Type 0 where
  pub bound : RouteKey
  -- The channel whose receiving half the task has.
  pub egress : Sender
  pub relay : Sender
  pub v4_open : Bool
  pub v6_open : Bool

-- `translate`, before its loop.
unfoldable pub translator : RouteKey → Sender → Sender → Translator
translator bound egress relay = record {
  bound = bound;
  egress = egress;
  relay = relay;
  v4_open = false;
  v6_open = false;
}

pub data Event : Type 0 where
  -- A datagram to send; whether a socket could be opened, if that is tried.
  outgoing : SocketAddr → Bytes → Bool → Event
  -- The lease was dropped.
  closed : Event
  -- A socket's answer (`none` for an error), its buffer, and whether the client's relay is open.
  received : Family → Option (ℕ × SocketAddr) → Bytes → Bool → Event

-- What a turn of the loop ends in.
pub data Turn : Type 0 where
  goes_on : Translator → Turn
  returns : Turn

abbrev pub is_open : Translator → Family → Bool
is_open t ipv4 = t.v4_open
is_open t ipv6 = t.v6_open

abbrev pub set_open : Translator → Family → Translator
set_open t ipv4 = record t { v4_open = true }
set_open t ipv6 = record t { v6_open = true }

-- `&buf[..len]`
abbrev pub prefix_of : Bytes → ℕ → Result Bytes
prefix_of b len = if leb len (length b) then ok (take len b) else panic

abbrev pub with_socket : Translator → SocketAddr → Bytes → Bool → Turn × List Effect
with_socket t peer content can_open =
    let f = family peer in
    if is_open t f
    then (goes_on t, send_to f peer content ∷ [])
    else if can_open
    then (goes_on (set_open t f), open_socket f ∷ send_to f peer content ∷ [])
    else (goes_on t, open_socket f ∷ [])

module _ (buf : Buf) where
  -- Whether the loop goes on, and the frame that the relay is sent.
  unfoldable pub relay_reply :
      Option (ℕ × SocketAddr) → Bytes → Sender → Bool → Result (Bool × List Effect)
  relay_reply none b relay relay_open = ok (true, [])
  relay_reply (some (len, peer)) b relay relay_open = do
    content ← prefix_of b len
    elim (encode buf (to_peer peer content)) [
      | ok frame ↦ ok (relay_open, relay_frame relay frame ∷ [])
      | err _ ↦ ok (true, [])
      | panic ↦ panic
    ]

  unfoldable pub step : Translator → Event → Result (Turn × List Effect)
  unfolding relay_reply
  step t (outgoing peer content can_open) = ok (with_socket t peer content can_open)
  step t closed = ok (returns, [])
  step t (received f answer b relay_open) = do
    (more, effects) ← relay_reply answer b t.relay relay_open
    ok (if more then goes_on t else returns, effects)
