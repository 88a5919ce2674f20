-- ===== src/Proxy/Delivery.antt =====
-- A datagram from one client to the bound port of another: what the sender's session hands on, and
-- what the receiver's session makes of it. Clients of both transports.
use lwproxy.Base.{
  ℕ, ◌^◌, ◌<◌, ◌≡◌, refl, sym, ◌∙◌, ap, Bool, true, false, List, [], ◌∷◌, Option, none, some,
  some_inj, All, Bytes, IsByte, is_empty,
}
use lwproxy.Result.{ok, ok_inj}
use lwproxy.Net.{IsIpv6, IsU16}
use lwproxy.Wire.{Buf}
use lwproxy.Code.{Rng, is_network_address}
use lwproxy.Frame
use lwproxy.Frame.{Frame, decode}
use lwproxy.Translate.{Sender, RouteKey}
use lwproxy.Network
use lwproxy.Network.{NetworkState, BindHandler, route, Sent, to_relay, assignment_of}
use lwproxy.Network.Sending.{SendEnds, refuses, delivers, drops, leaves, send-SendEnds}
use lwproxy.Lease
use lwproxy.Lease.{Lease, port_lease, Delivery, by_network}
use lwproxy.Commands.{World}
use lwproxy.Commands.Ends.{is_port_lease}
use lwproxy.Stream
use lwproxy.Stream.{Met}
use lwproxy.Socket
use lwproxy.Proxy.{Stage, greeting, on_stream, on_socket, ended, removed, Proxy, Reach, readers}
use lwproxy.Proxy.Readers.{is_session}
use lwproxy.Proxy.Bindings.{Binds, Binds-LeadsBack, Binds-readers, Binds-IsFine, Binds-in_network}
use lwproxy.Proxy.Counts.{lease_of, relay_at}
use lwproxy.Proxy.Sound.{IsFine}
use lwproxy.Proxy.Reached.{Reach-IsSound}

module _ {S : Type 0} (buf : Buf) (rng : Rng S) where
  -- The one delivery of a turn that goes on.
  abbrev pub stream_sends : Stream.Turn S × List Stream.Effect → Option Delivery
  stream_sends (Stream.goes_on s, Stream.deliver d ∷ []) = some d
  stream_sends other = none

  abbrev pub socket_sends : Socket.Turn S × List Socket.Effect → Option Delivery
  socket_sends (Socket.goes_on s, Socket.deliver d ∷ []) = some d
  socket_sends other = none

  -- What is done with a datagram of the client, in its session's turn.
  abbrev pub sends : (ℕ → Met) → World S → Stage S → Bytes → Bool → Option Delivery
  sends meets w (on_stream s) raw listens =
      stream_sends
        (Stream.step buf rng meets (record s { world = w }) (Stream.datagram (some raw) listens))
  sends meets w (on_socket s) raw listens = socket_sends (
      Socket.step buf rng (λ n. (meets n).circumstances) (record s { world = w })
        (Socket.arrives (Socket.binary raw) listens true))
  sends meets w other raw listens = none

  -- The one datagram, or binary message, that a turn sends to the client and goes on.
  abbrev pub stream_hears : Stream.Turn S × List Stream.Effect → Option Bytes
  stream_hears (Stream.goes_on s, Stream.send_datagram bytes ∷ []) = some bytes
  stream_hears other = none

  abbrev pub socket_hears : Socket.Turn S × List Socket.Effect → Option Bytes
  socket_hears (Socket.goes_on s, Socket.send (Socket.binary bytes) ∷ []) = some bytes
  socket_hears other = none

  -- What the client gets of what stands on the channel that its session reads.
  abbrev pub hears : (ℕ → Met) → World S → Stage S → Bytes → Bool → Option Bytes
  hears meets w (on_stream s) bytes listens = stream_hears (
      Stream.step buf rng meets (record s { world = w }) (Stream.relayed (some bytes) listens true))
  hears meets w (on_socket s) bytes listens = socket_hears (
      Socket.step buf rng (λ n. (meets n).circumstances) (record s { world = w })
        (Socket.relays (some bytes) listens true true))
  hears meets w other bytes listens = none

pub decode-is_empty :
    (buf : Buf) (out : Bytes) (f : Frame) → decode buf out ≡ ok f → is_empty out ≡ false
unfolding decode
decode-is_empty buf [] f e = cc
decode-is_empty buf (b ∷ out) f e = refl

-- The network hands a frame for a bound port to its relay.
network_delivers :
    (buf : Buf) (st : NetworkState) (h : BindHandler) (raw : Bytes) (listens : Bool) (f : Frame)
    (relay : Sender)
    → All IsByte raw
    → IsIpv6 h.key.0
    → IsU16 h.key.1
    → decode buf raw ≡ ok f
    → is_network_address f.peer_ip ≡ true
    → route st (f.peer_ip, f.peer_port) ≡ some relay
    → (out : Bytes) × (Network.send buf st h raw listens ≡ ok (to_relay relay out ∷ []))
      × (decode buf out ≡ ok (Frame.new h.key.0 h.key.1 f.content))
network_delivers buf st h raw listens f relay bytes ip port d inside led =
    ends (send-SendEnds buf st h raw listens bytes ip port)
  where
    ends :
        SendEnds buf st h raw listens (Network.send buf st h raw listens)
        → (out : Bytes) × (Network.send buf st h raw listens ≡ ok (to_relay relay out ∷ []))
          × (decode buf out ≡ ok (Frame.new h.key.0 h.key.1 f.content))
    ends (refuses e bad r) = absurd (cc (d, bad))
    ends (delivers g relay' out e n there r read) =
        let same : g ≡ f = ok_inj (sym e ∙ d) in
        let one : relay' ≡ relay =
          some_inj (sym there ∙ ap (λ (x : Frame). route st (x.peer_ip, x.peer_port)) same ∙ led) in
        (
          out,
          r ∙ ap (λ x. ok (to_relay x out ∷ [])) one,
          read ∙ ap (λ (x : Frame). ok (Frame.new h.key.0 h.key.1 x.content)) same,
        )
    ends (drops g e n there r) =
        let same : g ≡ f = ok_inj (sym e ∙ d) in
        absurd (cc (sym there ∙ ap (λ (x : Frame). route st (x.peer_ip, x.peer_port)) same ∙ led))
    ends (leaves g e n outside r) =
        let same : g ≡ f = ok_inj (sym e ∙ d) in
        absurd (cc (sym n ∙ ap (λ (x : Frame). is_network_address x.peer_ip) same ∙ inside))

module _ {S : Type 0} (buf : Buf) (rng : Rng S) (meets : ℕ → Met) (w : World S) where
  -- On the lease of a port, a WebTransport session expects datagrams.
  relays_datagrams :
      (s : Stream.Session S) (h : BindHandler)
      → Stream.Phases.Phase s
      → s.lease ≡ some (port_lease h)
      → s.relay_udp ≡ true
  relays_datagrams s h (Stream.Phases.unopened none_yet quiet free_lease has_relay empty) e = cc
  relays_datagrams s h (Stream.Phases.commanding there free_lease has_relay small whole) e = cc
  relays_datagrams s h (Stream.Phases.leasing l there held gone udp empty) e =
      udp ∙ ap is_port_lease (some_inj (sym held ∙ e))

  pub sends_lem :
      (stage : Stage S) (h : BindHandler) (raw : Bytes) (listens : Bool) (xs : List Sent)
      → IsFine stage
      → is_session stage ≡ true
      → lease_of stage ≡ some (port_lease h)
      → Network.send buf w.service.network h raw listens ≡ ok xs
      → sends buf rng meets w stage raw listens ≡ some (by_network xs)
  unfolding Stream.step Stream.handle_datagram Socket.step Socket.handle_message
      Socket.handle_datagram Lease.send
  sends_lem (on_stream s) h raw listens xs fine running held sent =
      rw (held, relays_datagrams s h fine held, sent) refl
  sends_lem (on_socket s) h raw listens xs fine running held sent = rw (held, sent) refl
  sends_lem greeting h raw listens xs fine running held sent = cc
  sends_lem (ended l rx) h raw listens xs fine running held sent = cc
  sends_lem (removed l rx) h raw listens xs fine running held sent = cc

  pub hears_lem :
      (stage : Stage S) (h : BindHandler) (out : Bytes) (listens : Bool)
      → IsFine stage
      → is_session stage ≡ true
      → lease_of stage ≡ some (port_lease h)
      → is_empty out ≡ false
      → hears buf rng meets w stage out listens ≡ some out
  unfolding Stream.step Stream.handle_relay Socket.step Socket.handle_relay
  hears_lem (on_stream s) h out listens fine running held full =
      rw (full, relays_datagrams s h fine held) refl
  hears_lem (on_socket s) h out listens fine running held full = rw full refl
  hears_lem greeting h out listens fine running held full = cc
  hears_lem (ended l rx) h out listens fine running held full = cc
  hears_lem (removed l rx) h out listens fine running held full = cc

module _ {S : Type 0} (buf : Buf) (rng : Rng S) (meets : ℕ → Met) where
  -- Take a proxy that fewer than 2^64 clients have reached and two clients in their sessions, over
  -- either transport, each with a lease on a port. A frame that the one sends to the bound address
  -- and port of the other is handed to the channel that the session of the other and no other task
  -- reads, and to nothing else; it carries the payload and the bound address and port of the
  -- sender; and the other session sends just these bytes on to its client.
  pub hears-sends :
      (n : ℕ) (p : Proxy S) (stage stage' : Stage S) (h h' : BindHandler) (raw : Bytes) (f : Frame)
      (listens listens' : Bool)
      → Reach buf rng n p
      → n < 2 ^ 64
      → Binds p stage h
      → Binds p stage' h'
      → All IsByte raw
      → decode buf raw ≡ ok f
      → h'.key ≡ (f.peer_ip, f.peer_port)
      → (out : Bytes) × (sends buf rng meets p.world stage raw listens
          ≡ some (by_network (to_relay (relay_at stage') out ∷ [])))
        × (decode buf out ≡ ok (Frame.new h.key.0 h.key.1 f.content))
        × (hears buf rng meets p.world stage' out listens' ≡ some out)
        × (readers (relay_at stage') p.clients ≡ 1)
  hears-sends n p stage stage' h h' raw f listens listens' r small b b' bytes d key =
      let v = Reach-IsSound buf rng n p r small in
      let st = p.world.service.network in
      let (ip, port, here) = Binds-in_network v stage h b in
      let (ip', port', there) = Binds-in_network v stage' h' b' in
      let (out, sent, read) =
        network_delivers buf st h raw listens f (relay_at stage') bytes ip port d
          (ap (λ (k : RouteKey). is_network_address k.0) (sym key) ∙ there)
          (ap (route st) (sym key) ∙ Binds-LeadsBack v stage' h' b') in
      (
        out,
        sends_lem buf rng meets p.world stage h raw listens _ (Binds-IsFine v stage h b) b.running
            b.leases sent,
        read,
        hears_lem buf rng meets p.world stage' h' out listens' (Binds-IsFine v stage' h' b')
            b'.running b'.leases (decode-is_empty buf out _ read),
        Binds-readers v stage' h' b',
      )
