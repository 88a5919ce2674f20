-- ===== src/Frame.antt =====
-- src/service/net/packet.rs: one datagram on a bound link, with the address of the other end.
pub mod Layout
pub mod RoundTrip
use lwproxy.Base.{
  ℕ, ◌+◌, ◌^◌, ◌<◌, [], List, arith, ◌==◌, ltb, leb, if◌then◌else◌, length, All, Bytes, IsByte,
  some, none,
}
use lwproxy.Result.{
  Result, ok, err, ◌>>=◌, ◌>>◌, ensure, datagram_too_large, frame_too_small, frame_bad_magic,
  frame_size_mismatch,
}
use lwproxy.Net.{IpAddr, v4, v6, SocketAddr, IsIpv6, IsU16, to_ipv4_mapped, to_ipv6_mapped}
use lwproxy.Wire.{Buf, be_bytes, from_be_bytes}

pub record Frame : Type 0 where
  pub peer_ip : ℕ
  pub peer_port : ℕ
  pub content : Bytes

abbrev pub magic : ℕ
magic = 0x778B4CF6

abbrev pub header_len : ℕ
header_len = 4 + 16 + 2 + 2

-- What the Rust types say of a frame.
pub record IsFrame (f : Frame) : Type 0 where
  pub ip : IsIpv6 f.peer_ip
  pub port : IsU16 f.peer_port
  pub bytes : All IsByte f.content

unfoldable pub new : ℕ → ℕ → Bytes → Frame
new peer_ip peer_port content = record {
  peer_ip = peer_ip;
  peer_port = peer_port;
  content = content;
}

abbrev address_field : IpAddr → ℕ
address_field (v4 a) = to_ipv6_mapped a
address_field (v6 a) = a

unfoldable pub to_peer : SocketAddr → Bytes → Frame
unfolding new
to_peer peer content = new (address_field peer.ip) peer.port content

unfoldable pub peer : Frame → SocketAddr
peer f = elim (to_ipv4_mapped f.peer_ip) [
  | some a ↦ record { ip = v4 a; port = f.peer_port }
  | none ↦ record { ip = v6 f.peer_ip; port = f.peer_port }
]

-- `usize` to `u16`, `try_into`.
abbrev length_field : ℕ → Result ℕ
length_field n = if ltb n (2 ^ 16) then ok n else err datagram_too_large

module _ (buf : Buf) where
  open buf use {put_u16, put_u32, put_slice, get_u16, get_u32, copy_to_slice}

  unfoldable pub encode : Frame → Result Bytes
  encode f = do
    len ← length_field (length f.content)
    let buffer = put_u32 [] magic
    let buffer = put_slice buffer (be_bytes 16 f.peer_ip)
    let buffer = put_u16 buffer f.peer_port
    let buffer = put_u16 buffer len
    ok (put_slice buffer f.content)

  unfoldable pub decode : Bytes → Result Frame
  decode raw = do
    ensure (leb header_len (length raw)) frame_too_small
    (number, cursor) ← get_u32 raw
    ensure (number == magic) frame_bad_magic
    (octets, cursor) ← copy_to_slice 16 cursor
    let peer_ip = from_be_bytes octets
    (peer_port, cursor) ← get_u16 cursor
    (len, cursor) ← get_u16 cursor
    ensure (length cursor == len) frame_size_mismatch
    ok (record { peer_ip = peer_ip; peer_port = peer_port; content = cursor })
