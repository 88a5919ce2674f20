-- ===== src/Frame/RoundTrip.antt =====
-- What the two ends of a bound link may rely on.
use lwproxy.Base.{
  ℕ, ◌+◌, ◌^◌, ◌<◌, ◌≤◌, ◌≡◌, ◌≢◌, refl, ◌⊎◌, inl, inr, none, [], ◌∷◌, ◌++◌, arith, length, Bytes,
  ap, dec_lt, All, IsByte, ◌∙◌, length-append,
}
use lwproxy.Result.{ok, err, panic, datagram_too_large}
use lwproxy.Net.{IpAddr, v4, v6, SocketAddr, IsIpv4, to_ipv4_mapped}
use lwproxy.Wire.{Buf, be_bytes, from_be_bytes}
use lwproxy.Wire.Octets.{
  length-be_bytes, from_be_bytes-be_bytes, be_bytes-from_be_bytes, from_be_bytes-lt,
}
use lwproxy.Frame.{Frame, IsFrame, magic, header_len, encode, decode, to_peer, peer}
use lwproxy.Frame.Layout.{Pieces, pieces, decode_pieces, decode_short, encode_pieces, encode_long}

All-append_inv : (xs ys : Bytes) → All IsByte (xs ++ ys) → All IsByte xs × All IsByte ys
All-append_inv [] ys h = (tt, h)
All-append_inv (x ∷ xs) ys h = let (a, b) = All-append_inv xs ys h.1 in ((h.0, a), b)

abbrev layout : Frame → Bytes
layout f =
    be_bytes 4 magic
    ++ (be_bytes 16 f.peer_ip
        ++ (be_bytes 2 f.peer_port ++ (be_bytes 2 (length f.content) ++ f.content)))

layout-Pieces : (f : Frame) → Pieces (layout f)
layout-Pieces f = record {
  number = be_bytes 4 magic;
  octets = be_bytes 16 f.peer_ip;
  port = be_bytes 2 f.peer_port;
  size = be_bytes 2 (length f.content);
  payload = f.content;
  number_len = length-be_bytes 4 magic;
  octets_len = length-be_bytes 16 f.peer_ip;
  port_len = length-be_bytes 2 f.peer_port;
  size_len = length-be_bytes 2 (length f.content);
  whole = refl;
}

be_bytes_piece :
    (n : ℕ) (s : Bytes) → length s ≡ n → All IsByte s → be_bytes n (from_be_bytes s) ≡ s
be_bytes_piece n s e h = rw (← e) (be_bytes-from_be_bytes s h)

piece-lt : (n : ℕ) (s : Bytes) → length s ≡ n → All IsByte s → from_be_bytes s < 256 ^ n
piece-lt n s e h = rw (← e) (from_be_bytes-lt s h)

record ArePieceBytes {raw : Bytes} (p : Pieces raw) : Type 0 where
  number : All IsByte p.number
  octets : All IsByte p.octets
  port : All IsByte p.port
  size : All IsByte p.size
  payload : All IsByte p.payload

pieces-IsByte : {raw : Bytes} (p : Pieces raw) → All IsByte raw → ArePieceBytes p
pieces-IsByte p h =
    let (a, h1) = All-append_inv p.number _ (rw p.whole at h) in
    let (b, h2) = All-append_inv p.octets _ h1 in
    let (c, h3) = All-append_inv p.port _ h2 in
    let (d, e) = All-append_inv p.size _ h3 in
    record { number = a; octets = b; port = c; size = d; payload = e }

module _ (buf : Buf) where
  decode-layout : (f : Frame) → IsFrame f → length f.content < 2 ^ 16 → decode buf (layout f) ≡ ok f
  unfolding layout-Pieces
  decode-layout f v h = ground (
    arith,
    decode_pieces buf (layout f) (layout-Pieces f),
    from_be_bytes-be_bytes 4 magic (omega arith),
    from_be_bytes-be_bytes 16 f.peer_ip (omega (arith, v.ip)),
    from_be_bytes-be_bytes 2 f.peer_port (omega (arith, v.port)),
    from_be_bytes-be_bytes 2 (length f.content) (omega arith),
  )

  -- A frame with fields in range is encoded exactly if its payload is shorter than 65536 bytes, in
  -- 24 bytes and the payload, and decoding gives the same frame back; a longer one is refused as
  -- too large.
  pub encode-decode :
      (f : Frame)
      → IsFrame f
      → ((length f.content < 2 ^ 16)
          × ((out : Bytes) × (encode buf f ≡ ok out)
              × (decode buf out ≡ ok f)
              × (length out ≡ header_len + length f.content)))
        ⊎ ((2 ^ 16 ≤ length f.content) × (encode buf f ≡ err datagram_too_large))
  encode-decode f v = elim (dec_lt (length f.content) (2 ^ 16)) [
    | yes h ↦ inl (
      h,
      (
        layout f,
        encode_pieces buf f h,
        decode-layout f v h,
        omega (
          arith,
          length-append (be_bytes 4 magic) (
              be_bytes 16 f.peer_ip
              ++ (be_bytes 2 f.peer_port ++ (be_bytes 2 (length f.content) ++ f.content))),
          length-append (be_bytes 16 f.peer_ip)
              (be_bytes 2 f.peer_port ++ (be_bytes 2 (length f.content) ++ f.content)),
          length-append (be_bytes 2 f.peer_port) (be_bytes 2 (length f.content) ++ f.content),
          length-append (be_bytes 2 (length f.content)) f.content,
          length-be_bytes,
        ),
      ),
    )
    | no h ↦ inr (omega arith, encode_long buf f (omega arith))
  ]

  -- What a successful read found in the pieces.
  decoded :
      {raw : Bytes} {f : Frame} (p : Pieces raw)
      → decode buf raw ≡ ok f
      → (from_be_bytes p.number ≡ magic)
        × (length p.payload ≡ from_be_bytes p.size)
        × (f.peer_ip ≡ from_be_bytes p.octets)
        × (f.peer_port ≡ from_be_bytes p.port)
        × (f.content ≡ p.payload)
  decoded {raw} {f} p h = ground (arith, decode_pieces buf raw p)

  encode-decoded :
      {raw : Bytes} {f : Frame} (p : Pieces raw)
      → All IsByte raw
      → decode buf raw ≡ ok f
      → (encode buf f ≡ ok raw) × IsFrame f
  encode-decoded {raw} {f} p bytes h =
      let (number, size, ip, port, content) = decoded p h in
      let v = pieces-IsByte p bytes in
      let small : length f.content < 2 ^ 16 =
        omega (arith, ap length content, size, piece-lt 2 p.size p.size_len v.size) in
      (
        encode_pieces buf f small
            ∙ cc (
              number,
              size,
              ip,
              port,
              content,
              p.whole,
              be_bytes_piece 4 p.number p.number_len v.number,
              be_bytes_piece 16 p.octets p.octets_len v.octets,
              be_bytes_piece 2 p.port p.port_len v.port,
              be_bytes_piece 2 p.size p.size_len v.size,
            ),
        record {
          ip = omega (arith, ip, piece-lt 16 p.octets p.octets_len v.octets);
          port = omega (arith, port, piece-lt 2 p.port p.port_len v.port);
          bytes = rw content v.payload;
        },
      )

  -- Bytes that decode to a frame are the very bytes that the frame is encoded as, and the frame's
  -- fields are in range.
  pub decode-encode :
      (raw : Bytes) (f : Frame)
      → All IsByte raw
      → decode buf raw ≡ ok f
      → (encode buf f ≡ ok raw) × IsFrame f
  decode-encode raw f bytes h = elim (dec_lt (length raw) header_len) [
    | yes short ↦ ground (arith, decode_short buf raw short)
    | no long ↦ encode-decoded (pieces raw (omega arith)) bytes h
  ]

  -- What was read fits its length field.
  pub decode-length-lt :
      (raw : Bytes) (f : Frame) → All IsByte raw → decode buf raw ≡ ok f → length f.content < 2 ^ 16
  decode-length-lt raw f bytes h = elim (dec_lt (length f.content) (2 ^ 16)) [
    | yes small ↦ small
    | no long ↦ cc (encode_long buf f (omega arith), (decode-encode raw f bytes h).0)
  ]

  -- Decoding never panics, however short or long the bytes are.
  pub decode-ne-panic : (raw : Bytes) → decode buf raw ≢ panic
  decode-ne-panic raw = elim (dec_lt (length raw) header_len) [
    | yes h ↦ ground (arith, decode_short buf raw h)
    | no h ↦ ground (arith, decode_pieces buf raw (pieces raw (omega arith)))
  ]

-- Not an IPv4 address in the guise of an IPv6 one.
abbrev pub IsUnmapped : IpAddr → Type 0
IsUnmapped (v4 a) = IsIpv4 a
IsUnmapped (v6 a) = to_ipv4_mapped a ≡ none

peer-to_peer_ip :
    (ip : IpAddr) (port : ℕ) (content : Bytes)
    → IsUnmapped ip
    → peer (to_peer (record { ip = ip; port = port }) content) ≡ record { ip = ip; port = port }
unfolding peer to_peer
peer-to_peer_ip (v4 a) port content v = ground arith
peer-to_peer_ip (v6 a) port content v = ground arith

-- Every IPv4 address, and every IPv6 address outside ::ffff:0:0/96, comes back with its port from
-- the frame that carries it.
pub peer-to_peer :
    (p : SocketAddr) (content : Bytes) → IsUnmapped p.ip → peer (to_peer p content) ≡ p
peer-to_peer p content v = peer-to_peer_ip p.ip p.port content v

-- The socket address that a frame with fields in range names is carried by that same frame.
pub to_peer-peer : (f : Frame) → IsFrame f → to_peer (peer f) f.content ≡ f
unfolding peer to_peer
to_peer-peer f v = ground arith
