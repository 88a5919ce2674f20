-- ===== src/Stream/Sound.antt =====
-- src/webtransport/client.rs: what is done to the stream, datagrams and the relay, in each phase.
use mathlib.Core.Path.{subst}
use lwproxy.Base.{
  ◌||◌, ℕ, zero, suc, ◌<◌, ◌≡◌, refl, sym, ap, Bool, true, false, not, List, [], ◌++◌, Option, none,
  some, is_some, Bool-cases, inl, inr, arith, length, Bytes, if◌then◌else◌, leb, is_empty,
}
use lwproxy.Result.{lease_ended, io_error, if_first, if_both, if_second}
use lwproxy.Wire.{Buf}
use lwproxy.Code.{Rng}
use lwproxy.Lease.{Lease}
use lwproxy.Lease.Sends.{send-ne-panic}
use lwproxy.Commands.{max_command_size}
use lwproxy.Network.Leases.{Lent}
use lwproxy.Stream.{
  split_line, Met, Session, Effect, goes_on, fails, send_to, relay_stream, datagram_to,
  handle_relay, lease_over, command, round, handle_data,
}
use lwproxy.Stream.Turns.{with_more, split_line-shorter, carry_out-Holds}
use lwproxy.Stream.Fuel.{all_commands, all_commands_lem}
use lwproxy.Commands.{World}
use lwproxy.Commands.Refines.{Closed}
use lwproxy.Stream.Commanding.{command-Leaves}
use lwproxy.Stream.{
  Event, accepts_bi, accepts_uni, reads, datagram, relayed, elsewhere, handle_datagram, step,
}
use lwproxy.Result.{unidirectional_stream}
use lwproxy.Stream.Phases.{
  Phase, with_stream, leased-send_lem, Held, unopened, commanding, leasing, free, taken, Sound,
  Working, Leaves, continue_with-Leaves, if-Leaves, sent_on-Leaves, recv-send, without_recv,
}

pub elsewhere-Phase :
    {S : Type 0} (s : Session S) (w : World S) → Phase s → Phase (record s { world = w })
elsewhere-Phase s w (unopened none_yet quiet free_lease has_relay empty) =
    unopened none_yet quiet free_lease has_relay empty
elsewhere-Phase s w (commanding there lease_free has_relay small whole) =
    commanding there lease_free has_relay small whole
elsewhere-Phase s w (leasing l there held gone udp empty) = leasing l there held gone udp empty

module _ {S : Type 0} (buf : Buf) (listens : Bool) (P F : Session S → Type 0)
    (falls : (s : Session S) → P s → F s) where
  send_to-Leaves :
      (s : Session S) (o : Option Lease) (l : Lease) (bytes : Bytes)
      → o ≡ some l
      → P s
      → Leaves P F (send_to buf s o bytes listens)
  send_to-Leaves s none l bytes e h = cc
  send_to-Leaves s (some m) l bytes e h =
      sent_on-Leaves P F falls s _ h (send-ne-panic buf s.world.service.network m bytes listens)

  relay_stream-Leaves :
      (s : Session S) (l : Lease) (bytes : Bytes)
      → s.lease ≡ some l
      → P s
      → Leaves P F (relay_stream buf s bytes listens)
  unfolding relay_stream
  relay_stream-Leaves s l bytes held h =
      if_both (Leaves P F) (is_empty bytes) _ _ h
        (if_both (Leaves P F) s.relay_udp _ _ (falls s h) (send_to-Leaves s s.lease l bytes held h))

  pub handle_datagram-Leaves :
      (s : Session S) (l : Option Lease) (msg : Bytes)
      → P s
      → Leaves P F (datagram_to buf s l msg listens)
  handle_datagram-Leaves s none msg h = h
  handle_datagram-Leaves s (some l) msg h =
      if_both (Leaves P F) (not s.relay_udp) _ _ (falls s h)
        (sent_on-Leaves P F falls s _ h (send-ne-panic buf s.world.service.network l msg listens))

  pub handle_relay-Leaves :
      (s : Session S) (bytes : Option Bytes) (sends : Bool)
      → s.send ≡ true
      → P s
      → Leaves P F (handle_relay buf s bytes listens sends)
  unfolding handle_relay
  handle_relay-Leaves s none sends there h = falls s h
  handle_relay-Leaves s (some bytes) sends there h =
      let ends : (e : List Effect)
          → Leaves P F ((if sends then goes_on s else fails io_error s), e) =
        λ e. if-Leaves P F sends (goes_on s) (fails io_error s) e h (falls s h) in
      if_both (Leaves P F) (is_empty bytes) _ _
        (if-Leaves P F (lease_over s.lease listens) (fails lease_ended s) (goes_on s) [] (falls s h)
          h)
        (if_both (Leaves P F) s.relay_udp _ _ (ends _)
          (if_second (Leaves P F) (not s.send) _ _ (ap not there) (ends _)))

module _ {S : Type 0} (buf : Buf) (rng : Rng S) (meets : ℕ → Met) (R : World S → List Lent → Type 0)
    (closed : Closed rng R) (others : List Lent) where
  module _ (listens : Bool) where
    round-Leaves :
        (s : Session S) (l : Option Lease) (line : Option (Bytes × Bytes))
        → s.lease ≡ l
        → split_line s.cmdbuf ≡ line
        → Working R others s
        → ((t : Session S)
            → length t.cmdbuf < length s.cmdbuf
            → Working R others t
            → Leaves (Sound R others) (Held R others) (all_commands buf rng meets listens t))
        → Leaves
            (Sound R others)
            (Held R others)
            (round buf rng meets (all_commands buf rng meets listens) listens s l line)
    round-Leaves s (some l) line held e (free there lease_free has_relay, reached) ih = cc
    round-Leaves s (some l) line held e (taken m there lease_held gone udp, reached) ih =
        relay_stream-Leaves buf listens (Sound R others) (Held R others) (λ t h. h.1)
          (record s { cmdbuf = [] }) m s.cmdbuf lease_held
          (leasing m there lease_held gone udp refl, reached)
    round-Leaves s none line held e (taken m there lease_held gone udp, reached) ih = cc
    round-Leaves s none none held e (free there lease_free has_relay, reached) ih =
        elim (Bool-cases (leb max_command_size (length s.cmdbuf))) [
          | inl large ↦ rw large reached
          | inr fits ↦ rw fits (commanding there lease_free has_relay (ground arith) e, reached)
        ]
    round-Leaves s none (some (cmd, rest)) held e (free there lease_free has_relay, reached) ih =
        let s' = record s { cmdbuf = rest } in
        continue_with-Leaves (Sound R others) (Held R others) (Working R others) rest
          (command buf rng meets s' cmd) _
          (command-Leaves R others buf rng meets closed s' cmd there lease_free has_relay reached)
          (carry_out-Holds s' (meets s.handled) _)
          (λ t working holds.
            ih t (omega (arith, split_line-shorter s.cmdbuf cmd rest e, ap length holds)) working)

    all_commands-Leaves :
        (n : ℕ) (s : Session S)
        → length s.cmdbuf < n
        → Working R others s
        → Leaves (Sound R others) (Held R others) (all_commands buf rng meets listens s)
    all_commands-Leaves zero s small h = absurd (omega arith)
    all_commands-Leaves (suc n) s small h =
        subst (Leaves (Sound R others) (Held R others))
          (sym (all_commands_lem buf rng meets listens s))
          (round-Leaves s s.lease (split_line s.cmdbuf) refl refl h
            (λ t less working. all_commands-Leaves n t (omega arith) working))

    handle_data-Leaves :
        (s : Session S) (bytes : Bytes)
        → s.send ≡ true
        → Sound R others s
        → Leaves (Sound R others) (Held R others) (handle_data buf rng meets s bytes listens)
    unfolding handle_data
    handle_data-Leaves s bytes there (unopened none_yet quiet free_lease has_relay empty, reached) =
        cc
    handle_data-Leaves s bytes there (commanding sends lease_free has_relay small whole, reached) =
        if_second (Leaves (Sound R others) (Held R others)) (is_some s.lease) _ _
          (ap is_some lease_free)
          (all_commands-Leaves (suc (length (s.cmdbuf ++ bytes))) (with_more s bytes) (omega arith)
            (free sends lease_free has_relay, reached))
    handle_data-Leaves s bytes there (leasing l sends held gone udp empty, reached) =
        if_first (Leaves (Sound R others) (Held R others)) (is_some s.lease) _ _ (ap is_some held) (
          relay_stream-Leaves buf listens (Sound R others) (Held R others) (λ t h. h.1) s l bytes
            held (leasing l sends held gone udp empty, reached))

    pub read-Leaves :
        (s : Session S) (bytes : Bytes) (b : Bool)
        → s.recv ≡ b
        → Sound R others s
        → Leaves (Sound R others) (Held R others) (
            if b
            then if is_empty bytes
              then (goes_on (record s { recv = false }), [])
              else handle_data buf rng meets s bytes listens
            else (goes_on s, []))
    read-Leaves s bytes false listening h = h
    read-Leaves s bytes true listening h =
        if_both (Leaves (Sound R others) (Held R others)) (is_empty bytes) _ _
          (without_recv s h.0, h.1) (handle_data-Leaves s bytes (recv-send s h.0 listening) h)

  -- The relay only speaks once a lease holds it, and others leave a world in which the session holds
  -- its lease.
  abbrev pub Admits : Session S → Event S → Type 0
  Admits s (relayed bytes hears sends) = is_some s.lease ≡ true
  Admits s (elsewhere w) = Held R others (record s { world = w })
  Admits s event = Unit

  pub step-Leaves :
      (s : Session S) (event : Event S)
      → Sound R others s
      → Admits s event
      → Leaves (Sound R others) (Held R others) (step buf rng meets s event)
  unfolding step handle_datagram
  step-Leaves s (accepts_bi accepted) h possible = elim (Bool-cases (s.send || s.recv)) [
    | inl two ↦ rw two h.1
    | inr alone ↦ rw alone (
        if_both (Leaves (Sound R others) (Held R others)) accepted _ _
          (with_stream s h.0 alone, h.1) h.1)
  ]
  step-Leaves s (accepts_uni accepted) h possible =
      if-Leaves (Sound R others) (Held R others) accepted (fails unidirectional_stream s)
        (fails io_error s) [] h.1 h.1
  step-Leaves s (reads none hears) h possible =
      if_both (Leaves (Sound R others) (Held R others)) s.recv _ _ h.1 h
  step-Leaves s (reads (some bytes) hears) h possible = read-Leaves hears s bytes s.recv refl h
  step-Leaves s (datagram none hears) h possible = h.1
  step-Leaves s (datagram (some msg) hears) h possible =
      handle_datagram-Leaves buf hears (Sound R others) (Held R others) (λ t k. k.1) s s.lease msg h
  step-Leaves s (relayed bytes hears sends) h possible =
      handle_relay-Leaves buf hears (Sound R others) (Held R others) (λ t k. k.1) s bytes sends
        (leased-send_lem s h.0 possible) h
  step-Leaves s (elsewhere w) h possible = (elsewhere-Phase s w h.0, possible)
