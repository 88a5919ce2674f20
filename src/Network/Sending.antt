-- ===== src/Network/Sending.antt =====
-- Where the datagrams of a bound client go.
use lwproxy.Base.{
  ℕ, ◌<◌, ◌^◌, ◌≡◌, refl, ◌∙◌, ◌≤◌, Bool, true, false, List, [], ◌∷◌, none, some, arith, Bool-cases,
  Option-cases, inl, inr, Bytes, All, IsByte, length,
}
use lwproxy.Result.{Result, ok, err, panic, Error, bad_frame_from_client}
use lwproxy.Net.{v6, SocketAddr, IsIpv6, IsU16, IpAddr-cases}
use lwproxy.Wire.{Buf}
use lwproxy.Frame
use lwproxy.Frame.{Frame, IsFrame, decode, encode, peer}
use lwproxy.Frame.RoundTrip.{encode-decode, decode-encode, decode-length-lt, decode-ne-panic}
use lwproxy.Code.{is_network_address}
use lwproxy.Translate.{Sender}
use lwproxy.Network.{NetworkState, BindHandler, route, Sent, to_relay, deliver, send, send_out}

-- A frame to the private network is not one to an IPv4 peer.
network_peer :
    (f : Frame)
    → is_network_address f.peer_ip ≡ true
    → peer f ≡ record { ip = v6 f.peer_ip; port = f.peer_port }
unfolding peer
network_peer f h = ground arith

-- The socket address is one of the internet.
abbrev pub IsOutside : SocketAddr → Type 0
IsOutside to = (a : ℕ) → to.ip ≡ v6 a → is_network_address a ≡ false

IsOutside-peer : (f : Frame) → is_network_address f.peer_ip ≡ false → IsOutside (peer f)
unfolding peer
IsOutside-peer f h a e = ground arith

-- How `send` ends, for a client with the lease `h`.
pub data SendEnds (buf : Buf) (st : NetworkState) (h : BindHandler) (raw : Bytes) (listens : Bool)
    (r : Result (List Sent)) : Type 0 where
  -- The bytes are no frame.
  refuses :
      (e : Error)
      → decode buf raw ≡ err e
      → r ≡ err bad_frame_from_client
      → SendEnds buf st h raw listens r
  -- The peer's relay gets, in one frame, the payload and the sender's own bound address and port.
  delivers :
      (f : Frame) (relay : Sender) (out : Bytes)
      → decode buf raw ≡ ok f
      → is_network_address f.peer_ip ≡ true
      → route st (f.peer_ip, f.peer_port) ≡ some relay
      → r ≡ ok (to_relay relay out ∷ [])
      → decode buf out ≡ ok (Frame.new h.key.0 h.key.1 f.content)
      → SendEnds buf st h raw listens r
  -- Nobody bound the port: the datagram is lost.
  drops :
      (f : Frame)
      → decode buf raw ≡ ok f
      → is_network_address f.peer_ip ≡ true
      → route st (f.peer_ip, f.peer_port) ≡ none
      → r ≡ ok []
      → SendEnds buf st h raw listens r
  -- The peer is outside, and only the lease's own translation task hears of the datagram.
  leaves :
      (f : Frame)
      → decode buf raw ≡ ok f
      → is_network_address f.peer_ip ≡ false
      → IsOutside (peer f)
      → r ≡ send_out buf h (peer f) f.content listens
      → SendEnds buf st h raw listens r

module _ (buf : Buf) (st : NetworkState) (h : BindHandler) (raw : Bytes) (listens : Bool) where
  send_frame :
      (f : Frame)
      → decode buf raw ≡ ok f
      → is_network_address f.peer_ip ≡ true
      → send buf st h raw listens ≡ deliver buf st h.key (f.peer_ip, f.peer_port) f.content
  unfolding send
  send_frame f e n = ground (arith, network_peer f n)

  pub send_outside :
      (f : Frame)
      → decode buf raw ≡ ok f
      → is_network_address f.peer_ip ≡ false
      → send buf st h raw listens ≡ send_out buf h (peer f) f.content listens
  unfolding send
  send_outside f e n = elim (IpAddr-cases (peer f).ip) [
    | inl (a, i) ↦ ground arith
    | inr (a, i) ↦ ground (arith, IsOutside-peer f n a)
  ]

  send_bad :
      (e : Error) → decode buf raw ≡ err e → send buf st h raw listens ≡ err bad_frame_from_client
  unfolding send
  send_bad e d = ground arith

  delivered_some :
      (f : Frame) (relay : Sender) (out : Bytes)
      → encode buf (Frame.new h.key.0 h.key.1 f.content) ≡ ok out
      → route st (f.peer_ip, f.peer_port) ≡ some relay
      → deliver buf st h.key (f.peer_ip, f.peer_port) f.content ≡ ok (to_relay relay out ∷ [])
  unfolding deliver
  delivered_some f relay out e g = ground arith

  delivered_none :
      (f : Frame) (out : Bytes)
      → encode buf (Frame.new h.key.0 h.key.1 f.content) ≡ ok out
      → route st (f.peer_ip, f.peer_port) ≡ none
      → deliver buf st h.key (f.peer_ip, f.peer_port) f.content ≡ ok []
  unfolding deliver
  delivered_none f out e g = ground arith

  -- For bytes from a client with a lease on an IPv6 address and a 16-bit port, `send` refuses what
  -- is no frame; it hands a datagram to a bound port of the private network to the relay of that
  -- port alone, in a frame that reads back as the payload and the sender's own bound address and
  -- port; it drops one to an unbound port of the private network; and only a datagram to a peer
  -- outside the private network goes to the lease's translation task.
  pub send-SendEnds :
      All IsByte raw
      → IsIpv6 h.key.0
      → IsU16 h.key.1
      → SendEnds buf st h raw listens (send buf st h raw listens)
  unfolding Frame.new
  send-SendEnds bytes ip port = ends (decode buf raw) refl
    where
      own_frame : (f : Frame) → IsFrame f → IsFrame (Frame.new h.key.0 h.key.1 f.content)
      own_frame f w = record { ip = ip; port = port; bytes = w.bytes }

      too_long :
          (f : Frame)
          → 2 ^ 16 ≤ length (Frame.new h.key.0 h.key.1 f.content).content
          → length f.content < 2 ^ 16
          → ⊥
      too_long f long small = omega arith

      delivered :
          (f : Frame)
          → decode buf raw ≡ ok f
          → is_network_address f.peer_ip ≡ true
          → SendEnds buf st h raw listens (send buf st h raw listens)
      delivered f e n =
          elim (encode-decode buf (Frame.new h.key.0 h.key.1 f.content)
            (own_frame f (decode-encode buf raw f bytes e).1)) [
              | inl (small, (out, written, read, size)) ↦
                  elim (Option-cases (route st (f.peer_ip, f.peer_port))) [
                    | inl g ↦ drops f e n g (send_frame f e n ∙ delivered_none f out written g)
                    | inr (relay, g) ↦
                        delivers f relay out e n g
                          (send_frame f e n ∙ delivered_some f relay out written g) read
                  ]
              | inr (long, refused) ↦ absurd (too_long f long (decode-length-lt buf raw f bytes e))
            ]

      ends :
          (d : Result Frame)
          → decode buf raw ≡ d
          → SendEnds buf st h raw listens (send buf st h raw listens)
      ends (err e) d = refuses e d (send_bad e d)
      ends panic d = absurd (decode-ne-panic buf raw d)
      ends (ok f) d = elim (Bool-cases (is_network_address f.peer_ip)) [
        | inl n ↦ delivered f d n
        | inr n ↦ leaves f d n (IsOutside-peer f n) (send_outside f d n)
      ]
