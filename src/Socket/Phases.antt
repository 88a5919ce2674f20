-- ===== src/Socket/Phases.antt =====
-- src/websocket/client.rs: the phases of a session, the relay before its lease and the lease after
-- that; what a turn may leave.
use lwproxy.Base.{
  ℕ, ◌≡◌, ◌≢◌, refl, sym, ◌∙◌, ap, Bool, true, false, List, [], ◌∷◌, ◌++◌, Option, none, some,
  is_some, Bytes, if◌then◌else◌, is_empty,
}
use mathlib.Core.Path.{subst}
use lwproxy.Result.{if_both, if_first, if_second, Result, ok, err, panic, io_error}
use lwproxy.Wire.{Buf}
use lwproxy.Code.{Rng}
use lwproxy.Network.Leases.{Lent}
use lwproxy.Lease.{Lease, Delivery}
use lwproxy.Lease.Sends.{send-ne-panic}
use lwproxy.Commands.{World, Circumstances, Outcome, handle_command}
use lwproxy.Commands.Ends.{CommandEnds, refuses, answers, leases, handle_command-CommandEnds}
use lwproxy.Commands.Refines.{port_leases, Closed}
use lwproxy.Socket
use lwproxy.Socket.{
  Message, text, binary, ping, pong, close, frame, Session, Event, arrives, breaks, ends, relays,
  elsewhere, send, Effect, Turn, goes_on, closes, fails, panics, sent_then, shut_down, lease_over,
  took, carry_out, sent_on, handle_relay, datagram_to, handle_datagram, handle_message, step,
  continue_with, run_client, new,
}

-- The socket hands out whole messages, never a raw frame.
abbrev pub IsWhole : Message → Type 0
IsWhole (frame bytes) = ⊥
IsWhole message = Unit

module _ {S : Type 0} where
  pub data Phase (s : Session S) : Type 0 where
    commanding : s.lease ≡ none → s.relay_tx ≡ some s.relay_rx → Phase s
    leasing : (l : Lease) → s.lease ≡ some l → s.relay_tx ≡ none → Phase s

  -- What the session holds in the world, among the others.
  abbrev pub Held : (World S → List Lent → Type 0) → List Lent → Session S → Type 0
  Held R others s = R s.world (port_leases s.relay_rx s.lease ++ others)

  abbrev pub Sound : (World S → List Lent → Type 0) → List Lent → Session S → Type 0
  Sound R others s = Phase s × Held R others s

  -- A turn that goes on or ends well leaves the one, a turn that fails the other, and no turn panics.
  abbrev pub Leaves : (Session S → Type 0) → (Session S → Type 0) → Turn S × List Effect → Type 0
  Leaves P F (goes_on s, effects) = P s
  Leaves P F (closes s, effects) = P s
  Leaves P F (fails e s, effects) = F s
  Leaves P F (panics, effects) = ⊥
  Leaves P F (Turn.tires, effects) = Unit

module _ {S : Type 0} (P F : Session S → Type 0) where
  pub prefixed-Leaves :
      (e : List Effect) (x : Turn S × List Effect) → Leaves P F x → Leaves P F (x.0, e ++ x.1)
  prefixed-Leaves e (goes_on s, effects) h = h
  prefixed-Leaves e (closes s, effects) h = h
  prefixed-Leaves e (fails x s, effects) h = h
  prefixed-Leaves e (panics, effects) h = absurd h
  prefixed-Leaves e (Turn.tires, effects) h = tt

  if-Leaves :
      (b : Bool) (t u : Turn S) (e : List Effect)
      → Leaves P F (t, e)
      → Leaves P F (u, e)
      → Leaves P F ((if b then t else u), e)
  if-Leaves true t u e h k = h
  if-Leaves false t u e h k = k

-- A turn that fails leaves at least what there was.
module _ {S : Type 0} (P F : Session S → Type 0) (falls : (s : Session S) → P s → F s) where
  sent-Leaves :
      (s : Session S) (message : Message) (sends : Bool) (t : Turn S)
      → P s
      → Leaves P F (t, send message ∷ [])
      → Leaves P F (sent_then s message sends t)
  sent-Leaves s message sends t h k = if-Leaves P F sends t (fails io_error s) _ k (falls s h)

  shut_down-Leaves :
      (s : Session S) (sends shuts : Bool) → P s → Leaves P F (shut_down s sends shuts)
  shut_down-Leaves s sends shuts h =
      if_both (Leaves P F) sends _ _
        (if-Leaves P F shuts (closes s) (fails io_error s) _ h (falls s h)) (falls s h)

  sent_on-Leaves :
      (s : Session S) (r : Result Delivery) → P s → r ≢ panic → Leaves P F (sent_on s r)
  sent_on-Leaves s (ok d) h n = h
  sent_on-Leaves s (err e) h n = falls s h
  sent_on-Leaves s panic h n = n refl

  pub handle_relay-Leaves :
      (s : Session S) (bytes : Option Bytes) (listens sends shuts : Bool)
      → P s
      → Leaves P F (handle_relay s bytes listens sends shuts)
  unfolding handle_relay
  handle_relay-Leaves s none listens sends shuts h = shut_down-Leaves s sends shuts h
  handle_relay-Leaves s (some bytes) listens sends shuts h =
      if_both (Leaves P F) (if is_empty bytes then lease_over s.lease listens else false) _ _
        (shut_down-Leaves s sends shuts h) (sent-Leaves s (binary bytes) sends (goes_on s) h h)

  datagram-Leaves :
      (buf : Buf) (s : Session S) (l : Option Lease) (bytes : Bytes) (listens : Bool)
      → P s
      → Leaves P F (datagram_to buf s l bytes listens)
  datagram-Leaves buf s none bytes listens h = falls s h
  datagram-Leaves buf s (some l) bytes listens h =
      sent_on-Leaves s _ h (send-ne-panic buf s.world.service.network l bytes listens)

pub elsewhere-Phase :
    {S : Type 0} (s : Session S) (w : World S) → Phase s → Phase (record s { world = w })
elsewhere-Phase s w (commanding held has_relay) = commanding held has_relay
elsewhere-Phase s w (leasing l held gone) = leasing l held gone

module _ {S : Type 0} (buf : Buf) (rng : Rng S) (meets : ℕ → Circumstances)
    (R : World S → List Lent → Type 0) (closed : Closed rng R) (others : List Lent) where
  -- Where a turn leaves a sound session.
  abbrev Keeps : Turn S × List Effect → Type 0
  Keeps = Leaves (Sound R others) (Held R others)

  carry_out-Leaves :
      (s : Session S) (sends : Bool) (r : Result (Option (Outcome S)))
      → s.relay_tx ≡ some s.relay_rx
      → CommandEnds (meets s.handled) s.relay_tx r
      → Held R others s
      → ((o : Outcome S) → r ≡ ok (some o) → Held R others (took s o))
      → Keeps (carry_out s sends r)
  carry_out-Leaves s sends r has_relay (refuses e p) here held = rw p here
  carry_out-Leaves s sends r has_relay (CommandEnds.tires p) here held = rw p tt
  carry_out-Leaves s sends r has_relay (answers o p none_given udp kept idle) here held =
      let sound : Sound R others (took s o) =
        (commanding none_given (kept ∙ has_relay), held o p) in
      rw p (
        prefixed-Leaves (Sound R others) (Held R others) (Socket.started o.started) _ (
          sent-Leaves (Sound R others) (Held R others) (λ t h. h.1) (took s o)
            (text o.result.response) sends (goes_on (took s o)) sound sound))
  carry_out-Leaves s sends r has_relay (leases o l relay' task p had given udp gone running serves)
        here held =
      let sound : Sound R others (took s o) = (leasing l given gone, held o p) in
      rw p (
        prefixed-Leaves (Sound R others) (Held R others) (Socket.started o.started) _ (
          sent-Leaves (Sound R others) (Held R others) (λ t h. h.1) (took s o)
            (text o.result.response) sends (goes_on (took s o)) sound sound))

  free-Held : (s : Session S) → s.lease ≡ none → Held R others s → R s.world others
  free-Held s held h = subst (λ l. R s.world (port_leases s.relay_rx l ++ others)) held h

  text-Leaves :
      (s : Session S) (bytes : Bytes) (listens sends : Bool)
      → Sound R others s
      → Keeps (handle_message buf rng meets s (text bytes) listens sends)
  unfolding handle_message
  text-Leaves s bytes listens sends (leasing l held gone, here) =
      if_first Keeps (is_some s.lease) _ _ (ap is_some held) here
  text-Leaves s bytes listens sends (commanding held has_relay, here) =
      if_second Keeps (is_some s.lease) _ _ (ap is_some held) (
        carry_out-Leaves s sends _ has_relay
          (handle_command-CommandEnds rng (meets s.handled) s.world s.relay_tx bytes) here
          (λ o h.
            closed (meets s.handled) s.world others s.relay_rx bytes o (free-Held s held here)
              (ap (λ r. handle_command rng (meets s.handled) s.world r bytes) (sym has_relay) ∙ h)))

  message-Leaves :
      (s : Session S) (message : Message) (listens sends : Bool)
      → IsWhole message
      → Sound R others s
      → Keeps (handle_message buf rng meets s message listens sends)
  unfolding handle_message handle_datagram
  message-Leaves s (text bytes) listens sends whole h = text-Leaves s bytes listens sends h
  message-Leaves s (binary bytes) listens sends whole h =
      datagram-Leaves (Sound R others) (Held R others) (λ t k. k.1) buf s s.lease bytes listens h
  message-Leaves s (ping bytes) listens sends whole h =
      sent-Leaves (Sound R others) (Held R others) (λ t k. k.1) s (pong bytes) sends (goes_on s) h h
  message-Leaves s (pong bytes) listens sends whole h = h
  message-Leaves s (close (some f)) listens sends whole h =
      sent-Leaves (Sound R others) (Held R others) (λ t k. k.1) s (close (some f)) sends (closes s)
        h h
  message-Leaves s (close none) listens sends whole h =
      sent-Leaves (Sound R others) (Held R others) (λ t k. k.1) s (close (some Socket.done)) sends
        (closes s) h h
  message-Leaves s (frame bytes) listens sends whole h = whole

  -- Messages are whole, and others leave a world in which the session holds its lease.
  abbrev pub Admits : Session S → Event S → Type 0
  Admits s (arrives message listens sends) = IsWhole message
  Admits s (elsewhere w) = Held R others (record s { world = w })
  Admits s event = Unit

  pub step-Leaves :
      (s : Session S) (event : Event S)
      → Sound R others s
      → Admits s event
      → Leaves (Sound R others) (Held R others) (step buf rng meets s event)
  unfolding step
  step-Leaves s (arrives message listens sends) h whole =
      message-Leaves s message listens sends whole h
  step-Leaves s breaks h possible = h.1
  step-Leaves s ends h possible = h.1
  step-Leaves s (relays bytes listens sends shuts) h possible =
      handle_relay-Leaves (Sound R others) (Held R others) (λ t k. k.1) s bytes listens sends shuts
        h
  step-Leaves s (elsewhere w) h possible = (elsewhere-Phase s w h.0, possible)
