-- ===== src/Lease/Sends.antt =====
-- Sending on a lease never panics, whatever bytes a client sends.
use lwproxy.Base.{List, ◌≢◌, refl, Bool, Bytes, arith, if◌then◌else◌}
use lwproxy.Result.{Result, ok, err, panic, relabel, bind_panic, bad_frame_from_client, if_both}
use lwproxy.Net.{SocketAddr, IpAddr, v4, v6}
use lwproxy.Wire.{Buf}
use lwproxy.Frame
use lwproxy.Frame.{Frame, encode, decode, peer}
use lwproxy.Frame.RoundTrip.{decode-ne-panic}
use lwproxy.Translate.{RouteKey}
use lwproxy.Code.{is_network_address}
use lwproxy.Network
use lwproxy.Network.{NetworkState, BindHandler, Sent, deliver, send_out, RouteKey-discrete}
use lwproxy.Lease.{Lease, port_lease, dns_lease, connect_lease, send}

module _ (buf : Buf) where
  encode-ne-panic : (f : Frame) → encode buf f ≢ panic
  unfolding encode
  encode-ne-panic f = ground arith

  relabel-ne-panic : (r : Result Frame) → r ≢ panic → relabel r bad_frame_from_client ≢ panic
  relabel-ne-panic (ok f) n = ground arith
  relabel-ne-panic (err e) n = ground arith
  relabel-ne-panic panic n = absurd (n refl)

  deliver-ne-panic :
      (st : NetworkState) (from to : RouteKey) (content : Bytes)
      → deliver buf st from to content ≢ panic
  unfolding deliver
  deliver-ne-panic st from to content =
      bind_panic _ _ (encode-ne-panic (Frame.new from.0 from.1 content)) (λ out. ground arith)

  send_out-ne-panic :
      (h : BindHandler) (to : SocketAddr) (content : Bytes) (listens : Bool)
      → send_out buf h to content listens ≢ panic
  send_out-ne-panic h to content listens = ground arith

  network_send-ne-panic :
      (st : NetworkState) (h : BindHandler) (raw : Bytes) (listens : Bool)
      → Network.send buf st h raw listens ≢ panic
  unfolding Network.send
  network_send-ne-panic st h raw listens =
      bind_panic _ _ (relabel-ne-panic (decode buf raw) (decode-ne-panic buf raw))
        (λ frame. each frame (peer frame).ip)
    where
      each :
          (frame : Frame) (ip : IpAddr)
          → (elim ip as (λ x. Result (List Sent)) [
            | v4 a ↦ send_out buf h (peer frame) frame.content listens
            | v6 a ↦
                if is_network_address a
                then deliver buf st h.key (a, (peer frame).port) frame.content
                else send_out buf h (peer frame) frame.content listens
          ])
            ≢ panic
      each frame (v4 a) = send_out-ne-panic h (peer frame) frame.content listens
      each frame (v6 a) =
          if_both (λ r. r ≢ panic) (is_network_address a) _ _
            (deliver-ne-panic st h.key (a, (peer frame).port) frame.content)
            (send_out-ne-panic h (peer frame) frame.content listens)

  pub send-ne-panic :
      (st : NetworkState) (l : Lease) (bytes : Bytes) (listens : Bool)
      → send buf st l bytes listens ≢ panic
  unfolding send
  send-ne-panic st (port_lease h) bytes listens =
      bind_panic _ _ (network_send-ne-panic st h bytes listens) (λ sent. ground arith)
  send-ne-panic st (dns_lease l) bytes listens = ground arith
  send-ne-panic st (connect_lease l) bytes listens = ground arith
