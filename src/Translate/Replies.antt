-- ===== src/Translate/Replies.antt =====
-- What the translation task hands to the client, and when it ends.
use mathlib.Core.Path.{subst}
use lwproxy.Base.{
  ℕ, suc, zero, ◌<◌, ◌≤◌, ◌^◌, ◌≡◌, ◌≢◌, refl, sym, ◌∙◌, ap, Bool, true, List, [], ◌∷◌, ◌++◌, some,
  if◌then◌else◌, Bool-cases, arith, inl, inr, Bytes, All, IsByte, length, take, le→leb,
}
use lwproxy.Result.{ok}
use lwproxy.Net.{IpAddr, v4, v6, SocketAddr, IsIp, IsU16}
use lwproxy.Wire.{Buf}
use lwproxy.Frame
use lwproxy.Frame.{Frame, IsFrame, to_peer, peer, decode}
use lwproxy.Frame.RoundTrip.{IsUnmapped, peer-to_peer, to_peer-peer, encode-decode}
use lwproxy.Translate.{
  Sender, Family, family, send_to, set_open, ipv4, ipv6, Translator, Event, outgoing, closed,
  received, goes_on, Effect, open_socket, relay_frame, is_open, max_datagram, relay_reply, step,
  with_socket,
}

take-IsByte : (n : ℕ) (b : Bytes) → All IsByte b → All IsByte (take n b)
take-IsByte zero b h = tt
take-IsByte (suc n) [] h = tt
take-IsByte (suc n) (x ∷ b) h = (h.0, take-IsByte n b h.1)

length-take-le : (n : ℕ) (b : Bytes) → length (take n b) ≤ n
length-take-le zero b = omega arith
length-take-le (suc n) [] = omega arith
length-take-le (suc n) (x ∷ b) = omega (arith, length-take-le n b)

to_peer-IsFrame :
    (p : SocketAddr) (content : Bytes)
    → IsIp p.ip
    → IsU16 p.port
    → All IsByte content
    → IsFrame (to_peer p content)
unfolding to_peer
to_peer-IsFrame p content ip port bytes = record {
  ip = address p.ip ip;
  port = port;
  bytes = bytes;
}
  where
    address :
        (i : IpAddr)
        → IsIp i
        → (to_peer (record { ip = i; port = p.port }) content).peer_ip < 2 ^ 128
    address (v4 a) h = omega arith
    address (v6 a) h = h

content-to_peer : (p : SocketAddr) (content : Bytes) → (to_peer p content).content ≡ content
unfolding to_peer
content-to_peer p content = refl

module _ (buf : Buf) (from : SocketAddr) (b : Bytes) (len : ℕ) (relay : Sender)
    (relay_open : Bool) where
  -- What is read fits a frame, so it is relayed.
  pub relay_reply-to_peer :
      IsFrame (to_peer from (take len b))
      → len ≤ length b
      → len ≤ max_datagram
      → (frame : Bytes) × (relay_reply buf (some (len, from)) b relay relay_open
          ≡ ok (relay_open, relay_frame relay frame ∷ []))
        × (decode buf frame ≡ ok (to_peer from (take len b)))
  unfolding relay_reply
  relay_reply-to_peer v fits small =
      let content = take len b in
      elim (encode-decode buf (to_peer from content) v) [
        | inl (_, (out, written, read, _)) ↦ (out, ground (arith, le→leb len (length b) fits), read)
        | inr (long, _) ↦
            absurd (omega (arith, ap length (content-to_peer from content), length-take-le len b))
      ]

  -- A datagram from a peer that is no IPv4-mapped address, with a length within the socket's buffer
  -- and at most 4096, is always relayed: the client gets one frame that decodes to the peer's
  -- address and port and the datagram's bytes, and the loop goes on exactly if the relay is open.
  pub relay_reply-relays :
      IsIp from.ip
      → IsUnmapped from.ip
      → IsU16 from.port
      → All IsByte b
      → len ≤ length b
      → len ≤ max_datagram
      → (frame : Bytes) × (f : Frame) × (relay_reply buf (some (len, from)) b relay relay_open
          ≡ ok (relay_open, relay_frame relay frame ∷ []))
        × (decode buf frame ≡ ok f)
        × (peer f ≡ from)
        × (f.content ≡ take len b)
  relay_reply-relays ip unmapped port bytes fits small =
      let content = take len b in
      let v = to_peer-IsFrame from content ip port (take-IsByte len b bytes) in
      let (out, relayed, read) = relay_reply-to_peer v fits small in
      (
        out,
        to_peer from content,
        relayed,
        read,
        peer-to_peer from content unmapped,
        content-to_peer from content,
      )

-- The address and port that a frame names stand in the frame of an answer.
to_peer-returns :
    (f : Frame)
    → IsFrame f
    → (content : Bytes) → to_peer (peer f) content ≡ Frame.new f.peer_ip f.peer_port content
unfolding to_peer Frame.new
to_peer-returns f v content =
    ap (λ (x : Frame). Frame.new x.peer_ip x.peer_port content) (to_peer-peer f v)

-- An answer of the peer that a frame named.
pub relay_reply-answers :
    (buf : Buf) (f : Frame) (b : Bytes) (len : ℕ) (relay : Sender) (relay_open : Bool)
    → IsFrame f
    → All IsByte b
    → len ≤ length b
    → len ≤ max_datagram
    → (frame : Bytes) × (relay_reply buf (some (len, peer f)) b relay relay_open
        ≡ ok (relay_open, relay_frame relay frame ∷ []))
      × (decode buf frame ≡ ok (Frame.new f.peer_ip f.peer_port (take len b)))
unfolding Frame.new
relay_reply-answers buf f b len relay relay_open v bytes fits small =
    let returned = to_peer-returns f v (take len b) in
    let named : IsFrame (Frame.new f.peer_ip f.peer_port (take len b)) = record {
      ip = v.ip;
      port = v.port;
      bytes = take-IsByte len b bytes;
    } in
    let (out, relayed, read) =
      relay_reply-to_peer buf (peer f) b len relay relay_open (subst IsFrame (sym returned) named)
        fits small in
    (out, relayed, read ∙ ap ok returned)

is_open-set_open : (t : Translator) (f : Family) → is_open (set_open t f) f ≡ true
is_open-set_open t ipv4 = refl
is_open-set_open t ipv6 = refl

relay-set_open : (t : Translator) (f : Family) → (set_open t f).relay ≡ t.relay
relay-set_open t ipv4 = refl
relay-set_open t ipv6 = refl

-- To a peer whose socket is open or can be opened.
pub step-send_to :
    (buf : Buf) (t : Translator) (to : SocketAddr) (content : Bytes)
    → let f = family to in
      (t' : Translator) × (step buf t (outgoing to content true)
        ≡ ok (
          goes_on t',
          (if is_open t f then [] else open_socket f ∷ []) ++ (send_to f to content ∷ []),
        ))
      × (is_open t' f ≡ true)
      × (t'.relay ≡ t.relay)
unfolding step
step-send_to buf t to content =
    let f = family to in
    elim (Bool-cases (is_open t f)) [
      | inl open_yet ↦ (t, rw open_yet refl, open_yet, refl)
      | inr closed_yet ↦
          (set_open t f, rw closed_yet refl, is_open-set_open t f, relay-set_open t f)
    ]

-- A socket of a family, once open, stays the same one for every later peer: it is neither opened
-- again nor forgotten, so the client keeps its source port.
socket_kept :
    (t t' : Translator) (peer : SocketAddr) (content : Bytes) (can_open : Bool) (f : Family)
    (effects : List Effect)
    → with_socket t peer content can_open ≡ (goes_on t', effects)
    → is_open t f ≡ true
    → (is_open t' f ≡ true)
      × ((rest : List Effect) → effects ≢ open_socket f ∷ rest)
      × (t'.bound ≡ t.bound)
      × (t'.relay ≡ t.relay)
socket_kept t t' peer content can_open ipv4 effects h o = ground arith
socket_kept t t' peer content can_open ipv6 effects h o = ground arith

-- When a turn of the translation task goes on, a family's socket that was open is still open and
-- was not opened again, and the task still serves the same port and relay.
pub step-keeps_socket :
    (buf : Buf) (t t' : Translator) (e : Event) (effects : List Effect) (f : Family)
    → step buf t e ≡ ok (goes_on t', effects)
    → is_open t f ≡ true
    → (is_open t' f ≡ true)
      × ((rest : List Effect) → effects ≢ open_socket f ∷ rest)
      × (t'.bound ≡ t.bound)
      × (t'.relay ≡ t.relay)
unfolding step
step-keeps_socket buf t t' (outgoing peer content can_open) effects f h o =
    socket_kept t t' peer content can_open f effects (ground arith) o
step-keeps_socket buf t t' closed effects f h o = ground arith
step-keeps_socket buf t t' (received g answer b relay_open) effects f h o = ground arith
