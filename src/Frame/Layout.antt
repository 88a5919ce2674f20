-- ===== src/Frame/Layout.antt =====
-- Frames as five pieces in a row: magic, address, port, length, payload.
use lwproxy.Base.{
  ℕ, zero, suc, ◌+◌, ◌^◌, ◌<◌, ◌≤◌, ◌≡◌, refl, [], ◌∷◌, ◌++◌, arith, ◌==◌, length, Bytes,
  append_assoc, length-append, ap, lt→ltb,
}
use lwproxy.Result.{
  ok, err, ◌>>◌, ensure, datagram_too_large, frame_too_small, frame_bad_magic, frame_size_mismatch,
}
use lwproxy.Wire.{Buf, be_bytes, from_be_bytes}
use lwproxy.Frame.{Frame, magic, header_len, encode, decode}

-- A byte string is a header, in its four pieces, and the rest.
pub record Pieces (raw : Bytes) : Type 0 where
  pub number : Bytes
  pub octets : Bytes
  pub port : Bytes
  pub size : Bytes
  pub payload : Bytes
  pub number_len : length number ≡ 4
  pub octets_len : length octets ≡ 16
  pub port_len : length port ≡ 2
  pub size_len : length size ≡ 2
  pub whole : raw ≡ number ++ (octets ++ (port ++ (size ++ payload)))

pub split :
    (n : ℕ) (b : Bytes)
    → n ≤ length b
    → (s : Bytes) × (rest : Bytes) × (length s ≡ n) × (b ≡ s ++ rest) × (length rest + n ≡ length b)
split zero b h = ([], b, refl, refl, omega arith)
split (suc n) [] h = absurd (omega arith)
split (suc n) (x ∷ b) h =
    let (s, rest, l, e, m) = split n b (omega arith) in (x ∷ s, rest, omega arith, cc, omega arith)

pub pieces : (raw : Bytes) → header_len ≤ length raw → Pieces raw
pieces raw h =
    let (a, r, la, ea, ma) = split 4 raw (omega arith) in
    let (b, s, lb, eb, mb) = split 16 r (omega arith) in
    let (c, t, lc, ec, mc) = split 2 s (omega arith) in
    let (d, u, ld, ed, md) = split 2 t (omega arith) in
    record {
      number = a;
      octets = b;
      port = c;
      size = d;
      payload = u;
      number_len = la;
      octets_len = lb;
      port_len = lc;
      size_len = ld;
      whole = cc;
    }

module _ (buf : Buf) where
  -- `decode` on a byte string that holds a header.
  pub decode_pieces :
      (raw : Bytes) (p : Pieces raw)
      → decode buf raw ≡ (do
        ensure (from_be_bytes p.number == magic) frame_bad_magic
        ensure (length p.payload == from_be_bytes p.size) frame_size_mismatch
        ok (record {
          peer_ip = from_be_bytes p.octets;
          peer_port = from_be_bytes p.port;
          content = p.payload;
        }))
  unfolding decode
  decode_pieces raw p =
      let rest2 : Bytes = p.size ++ p.payload in
      let rest1 : Bytes = p.port ++ rest2 in
      let rest0 : Bytes = p.octets ++ rest1 in
      ground (
        arith,
        ap length p.whole,
        length-append p.number rest0,
        buf.get_u32_lem p.number rest0 p.number_len,
        buf.copy_to_slice_lem 16 p.octets rest1 p.octets_len,
        buf.get_u16_lem p.port rest2 p.port_len,
        buf.get_u16_lem p.size p.payload p.size_len,
        length-append p.octets rest1,
        length-append p.port rest2,
        length-append p.size p.payload,
      )

  pub decode_short : (raw : Bytes) → length raw < header_len → decode buf raw ≡ err frame_too_small
  unfolding decode
  decode_short raw h = ground arith

  pub encode_pieces :
      (f : Frame)
      → length f.content < 2 ^ 16
      → encode buf f
        ≡ ok (
            be_bytes 4 magic
            ++ (be_bytes 16 f.peer_ip
                ++ (be_bytes 2 f.peer_port ++ (be_bytes 2 (length f.content) ++ f.content))))
  unfolding encode
  encode_pieces f h =
      rw (lt→ltb _ _ h) (simp (buf.put_u32_lem, buf.put_slice_lem, buf.put_u16_lem, append_assoc))

  pub encode_long : (f : Frame) → 2 ^ 16 ≤ length f.content → encode buf f ≡ err datagram_too_large
  unfolding encode
  encode_long f h = ground arith
