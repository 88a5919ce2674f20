-- ===== src/Stream/Relays.antt =====
-- src/webtransport/client.rs: a session reads one and the same relay throughout.
use lwproxy.Base.{
  ℕ, zero, suc, ◌≡◌, Bool, true, false, not, ◌||◌, List, [], ◌++◌, Option, none, some, Bytes,
  is_empty, is_some, if◌then◌else◌, length, leb,
}
use lwproxy.Result.{Result, ok, err, panic, if_both, io_error, lease_ended, unidirectional_stream}
use lwproxy.Wire.{Buf}
use lwproxy.Code.{Rng}
use lwproxy.Translate.{Sender}
use lwproxy.Lease
use lwproxy.Lease.{Lease, Delivery}
use lwproxy.Commands.{Outcome, max_command_size}
use lwproxy.Stream.{
  split_line, Met, Session, Event, accepts_bi, accepts_uni, reads, datagram, relayed, elsewhere,
  Effect, Turn, goes_on, fails, panics, continue_with, started, lease_over, leased, took,
  write_answer, carry_out, sent_on, send_to, relay_stream, datagram_to, handle_datagram,
  handle_relay, command, round, commands, handle_data, step,
}

module _ {S : Type 0} (rx : Sender) where
  -- The session that a turn leaves reads this relay.
  abbrev pub Reads : Turn S × List Effect → Type 0
  Reads (goes_on s, effects) = s.relay_rx ≡ rx
  Reads (fails e s, effects) = s.relay_rx ≡ rx
  Reads (panics, effects) = Unit
  Reads (Turn.tires, effects) = Unit

  prefixed-Reads : (e : List Effect) (x : Turn S × List Effect) → Reads x → Reads (x.0, e ++ x.1)
  prefixed-Reads e (goes_on s, effects) h = h
  prefixed-Reads e (fails x s, effects) h = h
  prefixed-Reads e (panics, effects) h = tt
  prefixed-Reads e (Turn.tires, effects) h = tt

  continue_with-Reads :
      (x : Turn S × List Effect) (k : Session S → Turn S × List Effect)
      → Reads x
      → ((t : Session S) → t.relay_rx ≡ rx → Reads (k t))
      → Reads (continue_with x k)
  continue_with-Reads (goes_on s, effects) k h next = prefixed-Reads effects (k s) (next s h)
  continue_with-Reads (fails e s, effects) k h next = h
  continue_with-Reads (panics, effects) k h next = tt
  continue_with-Reads (Turn.tires, effects) k h next = tt

  if-Reads :
      (b : Bool) (t u : Turn S) (e : List Effect)
      → Reads (t, e)
      → Reads (u, e)
      → Reads ((if b then t else u), e)
  if-Reads true t u e h k = h
  if-Reads false t u e h k = k

  leased-Reads :
      (s : Session S) (l : Option Lease) (udp : Bool)
      → s.relay_rx ≡ rx
      → (leased s l udp).relay_rx ≡ rx
  leased-Reads s none udp h = h
  leased-Reads s (some l) udp h = h

  write_answer-Reads :
      (s : Session S) (met : Met) (response : Bytes)
      → s.relay_rx ≡ rx
      → Reads (write_answer s met response)
  write_answer-Reads s met response h = if_both Reads (not s.send) _ _ tt (
      if_both Reads (not met.response_written) _ _ h
        (if_both Reads (not met.newline_written) _ _ h h))

  carry_out-Reads :
      (s : Session S) (met : Met) (r : Result (Option (Outcome S)))
      → s.relay_rx ≡ rx
      → Reads (carry_out s met r)
  carry_out-Reads s met (err e) h = h
  carry_out-Reads s met panic h = tt
  carry_out-Reads s met (ok none) h = tt
  carry_out-Reads s met (ok (some o)) h =
      prefixed-Reads (started o.started) (write_answer (took s o) met o.result.response) (
        write_answer-Reads (took s o) met o.result.response (
          leased-Reads (record s { relay_tx = o.relay; handled = suc s.handled; world = o.world })
            o.result.new_lease o.result.relay_udp h))

  sent_on-Reads : (s : Session S) (r : Result Delivery) → s.relay_rx ≡ rx → Reads (sent_on s r)
  sent_on-Reads s (ok d) h = h
  sent_on-Reads s (err e) h = h
  sent_on-Reads s panic h = tt

  module _ (buf : Buf) (listens : Bool) where
    send_to-Reads :
        (s : Session S) (l : Option Lease) (bytes : Bytes)
        → s.relay_rx ≡ rx
        → Reads (send_to buf s l bytes listens)
    send_to-Reads s none bytes h = tt
    send_to-Reads s (some l) bytes h =
        sent_on-Reads s (Lease.send buf s.world.service.network l bytes listens) h

    relay_stream-Reads :
        (s : Session S) (bytes : Bytes) → s.relay_rx ≡ rx → Reads (relay_stream buf s bytes listens)
    unfolding relay_stream
    relay_stream-Reads s bytes h =
        if_both Reads (is_empty bytes) _ _ h
          (if_both Reads s.relay_udp _ _ h (send_to-Reads s s.lease bytes h))

    datagram_to-Reads :
        (s : Session S) (l : Option Lease) (msg : Bytes)
        → s.relay_rx ≡ rx
        → Reads (datagram_to buf s l msg listens)
    datagram_to-Reads s none msg h = h
    datagram_to-Reads s (some l) msg h =
        if_both Reads (not s.relay_udp) _ _ h
          (sent_on-Reads s (Lease.send buf s.world.service.network l msg listens) h)

    handle_relay-Reads :
        (s : Session S) (bytes : Option Bytes) (sends : Bool)
        → s.relay_rx ≡ rx
        → Reads (handle_relay buf s bytes listens sends)
    unfolding handle_relay
    handle_relay-Reads s none sends h = h
    handle_relay-Reads s (some bytes) sends h =
        if_both Reads (is_empty bytes) _ _
          (if-Reads (lease_over s.lease listens) (fails lease_ended s) (goes_on s) [] h h)
          (if_both Reads s.relay_udp _ _ (if-Reads sends (goes_on s) (fails io_error s) _ h h) (
            if_both Reads (not s.send) _ _ tt
              (if-Reads sends (goes_on s) (fails io_error s) _ h h)))

  module _ (buf : Buf) (rng : Rng S) (meets : ℕ → Met) where
    round-Reads :
        (again : Session S → Turn S × List Effect) (listens : Bool) (s : Session S)
        (l : Option Lease) (line : Option (Bytes × Bytes))
        → s.relay_rx ≡ rx
        → ((t : Session S) → t.relay_rx ≡ rx → Reads (again t))
        → Reads (round buf rng meets again listens s l line)
    round-Reads again listens s (some l) line h next =
        relay_stream-Reads buf listens (record s { cmdbuf = [] }) s.cmdbuf h
    round-Reads again listens s none none h next =
        if_both Reads (leb max_command_size (length s.cmdbuf)) _ _ h h
    round-Reads again listens s none (some (cmd, rest)) h next =
        continue_with-Reads (command buf rng meets (record s { cmdbuf = rest }) cmd) again
          (carry_out-Reads (record s { cmdbuf = rest }) (meets s.handled) _ h) next

    commands-Reads :
        (fuel : ℕ) (listens : Bool) (s : Session S)
        → s.relay_rx ≡ rx
        → Reads (commands buf rng meets fuel listens s)
    unfolding commands
    commands-Reads zero listens s h = tt
    commands-Reads (suc fuel) listens s h =
        round-Reads (λ t. commands buf rng meets fuel listens t) listens s s.lease
          (split_line s.cmdbuf) h (λ t k. commands-Reads fuel listens t k)

    handle_data-Reads :
        (s : Session S) (bytes : Bytes) (listens : Bool)
        → s.relay_rx ≡ rx
        → Reads (handle_data buf rng meets s bytes listens)
    unfolding handle_data
    handle_data-Reads s bytes listens h =
        if_both Reads (is_some s.lease) _ _ (relay_stream-Reads buf listens s bytes h) (
          commands-Reads (suc (length (s.cmdbuf ++ bytes))) listens
            (record s { cmdbuf = s.cmdbuf ++ bytes }) h)

    pub step-Reads :
        (s : Session S) (event : Event S) → s.relay_rx ≡ rx → Reads (step buf rng meets s event)
    unfolding step handle_datagram
    step-Reads s (accepts_bi accepted) h =
        if_both Reads (s.send || s.recv) _ _ h (if_both Reads accepted _ _ h h)
    step-Reads s (accepts_uni accepted) h =
        if-Reads accepted (fails unidirectional_stream s) (fails io_error s) [] h h
    step-Reads s (reads none listens) h = if_both Reads s.recv _ _ h h
    step-Reads s (reads (some bytes) listens) h =
        if_both Reads s.recv _ _
          (if_both Reads (is_empty bytes) _ _ h (handle_data-Reads s bytes listens h)) h
    step-Reads s (datagram none listens) h = h
    step-Reads s (datagram (some msg) listens) h = datagram_to-Reads buf listens s s.lease msg h
    step-Reads s (relayed bytes listens sends) h = handle_relay-Reads buf listens s bytes sends h
    step-Reads s (elsewhere w) h = h
