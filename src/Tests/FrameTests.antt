-- ===== src/Tests/FrameTests.antt =====
-- Frames on the wire.
use lwproxy.Base.{◌+◌, ◌*◌, ◌<◌, ◌≤◌, ◌^◌, ◌≡◌, refl, ◌⊎◌, [], ◌∷◌, length, Bytes, arith}
use lwproxy.Result.{ok, err, datagram_too_large, frame_bad_magic}
use lwproxy.Wire.{be_bytes, from_be_from}
use lwproxy.Wire.Model.{plain_buf, split_at}
use lwproxy.Frame.{Frame, IsFrame, encode, decode, header_len}
use lwproxy.Frame.RoundTrip.{encode-decode, decode-encode}

abbrev query : Frame
query = record { peer_ip = 0xfd00 * 2 ^ 112 + 300; peer_port = 53; content = 1 ∷ 2 ∷ 3 ∷ [] }

abbrev query_bytes : Bytes
query_bytes =
    0x77 ∷ 0x8B ∷ 0x4C ∷ 0xF6 ∷ 0xfd ∷ 0 ∷ 0 ∷ 0 ∷ 0 ∷ 0 ∷ 0 ∷ 0 ∷ 0 ∷ 0 ∷ 0 ∷ 0 ∷ 0 ∷ 0 ∷ 1 ∷ 44
    ∷ 0 ∷ 53 ∷ 0 ∷ 3 ∷ 1 ∷ 2 ∷ 3 ∷ []

encode_runs : encode plain_buf query ≡ ok query_bytes
unfolding encode be_bytes
encode_runs = refl

decode_runs : decode plain_buf query_bytes ≡ ok query
unfolding decode split_at from_be_from
decode_runs = refl

decode_bad_magic : decode plain_buf (0 ∷ query_bytes) ≡ err frame_bad_magic
unfolding decode split_at from_be_from
decode_bad_magic = refl

query-IsFrame : IsFrame query
query-IsFrame = omega arith

encode-decode_example :
    ((length query.content < 2 ^ 16)
      × ((out : Bytes) × (encode plain_buf query ≡ ok out)
          × (decode plain_buf out ≡ ok query)
          × (length out ≡ header_len + length query.content)))
    ⊎ ((2 ^ 16 ≤ length query.content) × (encode plain_buf query ≡ err datagram_too_large))
encode-decode_example = encode-decode plain_buf query query-IsFrame

decode-encode_example : (encode plain_buf query ≡ ok query_bytes) × IsFrame query
decode-encode_example = decode-encode plain_buf query_bytes query (omega arith) decode_runs
