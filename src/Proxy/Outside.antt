-- ===== src/Proxy/Outside.antt =====
-- A datagram from a client with a bound port to a peer on the internet, and the peer's answer: what
-- the session hands on, what the translation task of the lease does, and what the session makes of
-- the answer. Clients of both transports.
use lwproxy.Base.{
  ℕ, ◌^◌, ◌<◌, ◌≤◌, ◌≡◌, refl, ◌∙◌, ap, true, false, [], ◌∷◌, ◌++◌, some, All, Bool, Bytes, IsByte,
  length, take, if◌then◌else◌,
}
use lwproxy.Result.{ok}
use lwproxy.Wire.{Buf}
use lwproxy.Code.{Rng, is_network_address}
use lwproxy.Frame
use lwproxy.Frame.{Frame, decode, peer}
use lwproxy.Frame.RoundTrip.{decode-encode}
use lwproxy.Translate.{
  Translator, family, open_socket, send_to, relay_frame, is_open, outgoing, received, goes_on,
  max_datagram, relay_reply, step,
}
use lwproxy.Translate.Replies.{step-send_to, relay_reply-answers}
use lwproxy.Network.{BindHandler, to_egress}
use lwproxy.Network.Sending.{send_outside}
use lwproxy.Lease.{by_network}
use lwproxy.Stream.{Met}
use lwproxy.Proxy.{Stage, Proxy, Reach, readers}
use lwproxy.Proxy.Bindings.{Binds, Binds-IsFine, Binds-readers}
use lwproxy.Proxy.Counts.{relay_at}
use lwproxy.Proxy.Reached.{Reach-IsSound}
use lwproxy.Proxy.Delivery.{sends, hears, sends_lem, hears_lem, decode-is_empty}

-- A received datagram, in the turn of the task.
step-relays :
    (buf : Buf) (t : Translator) (f : Frame) (b : Bytes) (len : ℕ) (frame : Bytes)
    → relay_reply buf (some (len, peer f)) b t.relay true
      ≡ ok (true, relay_frame t.relay frame ∷ [])
    → step buf t (received (family (peer f)) (some (len, peer f)) b true)
      ≡ ok (goes_on t, relay_frame t.relay frame ∷ [])
unfolding step
step-relays buf t f b len frame e = rw e refl

module _ {S : Type 0} (buf : Buf) (rng : Rng S) (meets : ℕ → Met) where
  -- Take a proxy that fewer than 2^64 clients have reached, a client in its session with a lease on
  -- a port, over either transport, and a translation task that relays to the channel which this
  -- session reads. A frame that the client sends, to a peer outside the private network, goes to
  -- the egress of the lease alone, with the peer and the payload; the task, if the socket of the
  -- peer's family is open or can be opened, sends the payload to that peer, and the socket is open
  -- then. An answer of that peer that fits the socket's buffer, of at most 4096 bytes, is relayed,
  -- while the relay is open, to that channel, which no other task reads, in one frame with the
  -- answer's bytes and the very address and port that the client's frame named; and the session
  -- sends just this frame on to its client.
  pub hears-answers :
      (n : ℕ) (p : Proxy S) (stage : Stage S) (h : BindHandler) (t : Translator) (raw : Bytes)
      (f : Frame) (b : Bytes) (len : ℕ) (listens : Bool)
      → Reach buf rng n p
      → n < 2 ^ 64
      → Binds p stage h
      → t.relay ≡ relay_at stage
      → All IsByte raw
      → decode buf raw ≡ ok f
      → is_network_address f.peer_ip ≡ false
      → All IsByte b
      → len ≤ length b
      → len ≤ max_datagram
      → let to = peer f in
        (sends buf rng meets p.world stage raw true
          ≡ some (by_network (to_egress h.egress to f.content ∷ [])))
        × ((t' : Translator) × (out : Bytes) × (step buf t (outgoing to f.content true)
              ≡ ok (
                goes_on t',
                (if is_open t (family to) then [] else open_socket (family to) ∷ [])
                    ++ (send_to (family to) to f.content ∷ []),
              ))
            × (is_open t' (family to) ≡ true)
            × (step buf t' (received (family to) (some (len, to)) b true)
                ≡ ok (goes_on t', relay_frame (relay_at stage) out ∷ []))
            × (decode buf out ≡ ok (Frame.new f.peer_ip f.peer_port (take len b)))
            × (hears buf rng meets p.world stage out listens ≡ some out))
        × (readers (relay_at stage) p.clients ≡ 1)
  hears-answers n p stage h t raw f b len listens r small binds serves bytes d outside from fits
        le =
      let v = Reach-IsSound buf rng n p r small in
      let fine = Binds-IsFine v stage h binds in
      let (t', sent, open_now, kept) = step-send_to buf t (peer f) f.content in
      let (out, relayed, read) =
        relay_reply-answers buf f b len t'.relay true (decode-encode buf raw f bytes d).1 from fits
          le in
      (
        sends_lem buf rng meets p.world stage h raw true _ fine binds.running binds.leases
            (send_outside buf p.world.service.network h raw true f d outside),
        (
          t',
          out,
          sent,
          open_now,
          step-relays buf t' f b len out relayed
              ∙ ap (λ x. ok (goes_on t', relay_frame x out ∷ [])) (kept ∙ serves),
          read,
          hears_lem buf rng meets p.world stage h out listens fine binds.running binds.leases
              (decode-is_empty buf out _ read),
        ),
        Binds-readers v stage h binds,
      )
