-- ===== src/Socket/Relays.antt =====
-- src/websocket/client.rs: a session reads one and the same relay throughout.
use lwproxy.Base.{
  ℕ, ◌≡◌, Bool, true, false, List, [], ◌∷◌, ◌++◌, Option, none, some, Bytes, is_empty, is_some,
  if◌then◌else◌,
}
use lwproxy.Result.{Result, ok, err, panic, if_both, io_error}
use lwproxy.Wire.{Buf}
use lwproxy.Code.{Rng}
use lwproxy.Translate.{Sender}
use lwproxy.Lease
use lwproxy.Lease.{Lease, Delivery}
use lwproxy.Commands.{Outcome, Circumstances}
use lwproxy.Socket
use lwproxy.Socket.{
  Message, text, binary, ping, pong, close, frame, Session, Event, arrives, breaks, ends, relays,
  elsewhere, send, Effect, Turn, goes_on, closes, fails, panics, sent_then, shut_down, lease_over,
  took, carry_out, sent_on, handle_relay, datagram_to, handle_datagram, handle_message, step,
}

module _ {S : Type 0} (rx : Sender) where
  -- The session that a turn leaves reads this relay.
  abbrev pub Reads : Turn S × List Effect → Type 0
  Reads (goes_on s, effects) = s.relay_rx ≡ rx
  Reads (closes s, effects) = s.relay_rx ≡ rx
  Reads (fails e s, effects) = s.relay_rx ≡ rx
  Reads (panics, effects) = Unit
  Reads (Turn.tires, effects) = Unit

  prefixed-Reads : (e : List Effect) (x : Turn S × List Effect) → Reads x → Reads (x.0, e ++ x.1)
  prefixed-Reads e (goes_on s, effects) h = h
  prefixed-Reads e (closes s, effects) h = h
  prefixed-Reads e (fails x s, effects) h = h
  prefixed-Reads e (panics, effects) h = tt
  prefixed-Reads e (Turn.tires, effects) h = tt

  if-Reads :
      (b : Bool) (t u : Turn S) (e : List Effect)
      → Reads (t, e)
      → Reads (u, e)
      → Reads ((if b then t else u), e)
  if-Reads true t u e h k = h
  if-Reads false t u e h k = k

  sent-Reads :
      (s : Session S) (message : Message) (sends : Bool) (t : Turn S)
      → s.relay_rx ≡ rx
      → Reads (t, send message ∷ [])
      → Reads (sent_then s message sends t)
  sent-Reads s message sends t h k = if-Reads sends t (fails io_error s) _ k h

  shut_down-Reads :
      (s : Session S) (sends shuts : Bool) → s.relay_rx ≡ rx → Reads (shut_down s sends shuts)
  shut_down-Reads s sends shuts h =
      if_both Reads sends _ _ (if-Reads shuts (closes s) (fails io_error s) _ h h) h

  carry_out-Reads :
      (s : Session S) (sends : Bool) (r : Result (Option (Outcome S)))
      → s.relay_rx ≡ rx
      → Reads (carry_out s sends r)
  carry_out-Reads s sends (err e) h = h
  carry_out-Reads s sends panic h = tt
  carry_out-Reads s sends (ok none) h = tt
  carry_out-Reads s sends (ok (some o)) h =
      prefixed-Reads (Socket.started o.started) _
        (sent-Reads (took s o) (text o.result.response) sends (goes_on (took s o)) h h)

  sent_on-Reads : (s : Session S) (r : Result Delivery) → s.relay_rx ≡ rx → Reads (sent_on s r)
  sent_on-Reads s (ok d) h = h
  sent_on-Reads s (err e) h = h
  sent_on-Reads s panic h = tt

  handle_relay-Reads :
      (s : Session S) (bytes : Option Bytes) (listens sends shuts : Bool)
      → s.relay_rx ≡ rx
      → Reads (handle_relay s bytes listens sends shuts)
  unfolding handle_relay
  handle_relay-Reads s none listens sends shuts h = shut_down-Reads s sends shuts h
  handle_relay-Reads s (some bytes) listens sends shuts h =
      if_both Reads (if is_empty bytes then lease_over s.lease listens else false) _ _
        (shut_down-Reads s sends shuts h) (sent-Reads s (binary bytes) sends (goes_on s) h h)

  datagram_to-Reads :
      (buf : Buf) (s : Session S) (l : Option Lease) (bytes : Bytes) (listens : Bool)
      → s.relay_rx ≡ rx
      → Reads (datagram_to buf s l bytes listens)
  datagram_to-Reads buf s none bytes listens h = h
  datagram_to-Reads buf s (some l) bytes listens h =
      sent_on-Reads s (Lease.send buf s.world.service.network l bytes listens) h

  module _ (buf : Buf) (rng : Rng S) (meets : ℕ → Circumstances) where
    message-Reads :
        (s : Session S) (message : Message) (listens sends : Bool)
        → s.relay_rx ≡ rx
        → Reads (handle_message buf rng meets s message listens sends)
    unfolding handle_message handle_datagram
    message-Reads s (text bytes) listens sends h =
        if_both Reads (is_some s.lease) _ _ h (carry_out-Reads s sends _ h)
    message-Reads s (binary bytes) listens sends h = datagram_to-Reads buf s s.lease bytes listens h
    message-Reads s (ping bytes) listens sends h = sent-Reads s (pong bytes) sends (goes_on s) h h
    message-Reads s (pong bytes) listens sends h = h
    message-Reads s (close (some f)) listens sends h =
        sent-Reads s (close (some f)) sends (closes s) h h
    message-Reads s (close none) listens sends h =
        sent-Reads s (close (some Socket.done)) sends (closes s) h h
    message-Reads s (frame bytes) listens sends h = tt

    pub step-Reads :
        (s : Session S) (event : Event S) → s.relay_rx ≡ rx → Reads (step buf rng meets s event)
    unfolding step
    step-Reads s (arrives message listens sends) h = message-Reads s message listens sends h
    step-Reads s breaks h = h
    step-Reads s ends h = h
    step-Reads s (relays bytes listens sends shuts) h =
        handle_relay-Reads s bytes listens sends shuts h
    step-Reads s (elsewhere w) h = h
