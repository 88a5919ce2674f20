-- ===== src/Socket.antt =====
-- src/websocket/client.rs: a client on a WebSocket. The messages that arrive come with the events, and
-- what is sent is a list of effects; whether it goes through comes with the event too. The n-th
-- command that a session handles meets the n-th circumstances.
pub mod Phases
pub mod Runs
pub mod Relays
use lwproxy.Base.{
  ℕ, suc, Bool, true, false, not, List, [], ◌∷◌, ◌++◌, Option, none, some, is_some, is_empty,
  if◌then◌else◌, Bytes,
}
use lwproxy.Result.{
  Result, ok, err, panic, ◌>>=◌, Error, io_error, command_late, no_target, already_closed,
}
use lwproxy.Wire.{Buf}
use lwproxy.Code.{Rng, codes}
use lwproxy.Translate.{Sender}
use lwproxy.Lease
use lwproxy.Lease.{Lease, Delivery}
use lwproxy.Service.{ProxyService, Started}
use lwproxy.Commands.{Circumstances, World, CommandResult, Outcome, handle_command}

-- `CloseFrame`, with the code of the protocol, and `Message` of tungstenite.
pub record CloseFrame : Type 0 where
  pub code : ℕ
  pub reason : Bytes

pub data Message : Type 0 where
  text binary ping pong : Bytes → Message
  close : Option CloseFrame → Message
  frame : Bytes → Message

abbrev pub done : CloseFrame
done = record { code = 1000; reason = codes "Done" }

-- `WebSocketClientRunner` once its stream was accepted, with the channel that the relay is read from, the number of commands that were handled,
-- and the world that all clients share.
pub record Session (S : Type 0) : Type 0 where
  pub relay_tx : Option Sender
  pub relay_rx : Sender
  pub lease : Option Lease
  pub handled : ℕ
  pub world : World S

abbrev pub new : {S : Type 0} → World S → Sender → Session S
new w relay = record {
  relay_tx = some relay;
  relay_rx = relay;
  lease = none;
  handled = 0;
  world = w;
}

pub data Effect : Type 0 where
  send : Message → Effect
  shut : Effect
  deliver : Delivery → Effect
  start : Started → Effect

-- `closes` for a session that ends well; one that fails is dropped as it stands; `tires` when the
-- fuel of a command runs out.
pub data Turn (S : Type 0) : Type 0 where
  goes_on closes : Session S → Turn S
  fails : Error → Session S → Turn S
  panics tires : Turn S

pub data Event (S : Type 0) : Type 0 where
  -- A message; whether the task of the lease listens, and whether an answer goes through.
  arrives : Message → Bool → Bool → Event S
  breaks ends : Event S
  -- From the relay, `none` once it is closed; whether the task of the lease listens, and whether the
  -- message and the closing that follows it go through.
  relays : Option Bytes → Bool → Bool → Bool → Event S
  -- Other clients take their turns: the world that they leave.
  elsewhere : World S → Event S

abbrev pub started : Option Started → List Effect
started none = []
started (some task) = start task ∷ []

-- Whether an empty message of the relay ends the session.
abbrev pub lease_over : Option Lease → Bool → Bool
lease_over none listens = false
lease_over (some l) listens = not (Lease.is_live l listens)

module _ {S : Type 0} where
  -- What is sent, and how the turn goes on if it goes through.
  abbrev pub sent_then : Session S → Message → Bool → Turn S → Turn S × List Effect
  sent_then s message sends turn = ((if sends then turn else fails io_error s), send message ∷ [])

  -- The answer, then the closing of the stream.
  abbrev pub shut_down : Session S → Bool → Bool → Turn S × List Effect
  shut_down s sends shuts =
      if sends
      then ((if shuts then closes s else fails io_error s), send (close (some done)) ∷ shut ∷ [])
      else (fails io_error s, send (close (some done)) ∷ [])

  -- The session once a command was answered.
  abbrev pub took : Session S → Outcome S → Session S
  took s o = record s {
    relay_tx = o.relay;
    lease = o.result.new_lease;
    handled = suc s.handled;
    world = o.world;
  }

  abbrev pub carry_out : Session S → Bool → Result (Option (Outcome S)) → Turn S × List Effect
  carry_out s sends (err e) = (fails e s, [])
  carry_out s sends panic = (panics, [])
  carry_out s sends (ok none) = (tires, [])
  carry_out s sends (ok (some o)) =
      let (turn, effects) =
        sent_then (took s o) (text o.result.response) sends (goes_on (took s o)) in
      (turn, started o.started ++ effects)

  abbrev pub sent_on : Session S → Result Delivery → Turn S × List Effect
  sent_on s (ok d) = (goes_on s, deliver d ∷ [])
  sent_on s (err e) = (fails e s, [])
  sent_on s panic = (panics, [])

  abbrev pub continue_with :
      Turn S × List Effect → (Session S → Turn S × List Effect) → Turn S × List Effect
  continue_with (goes_on s, effects) rest = let (last, more) = rest s in (last, effects ++ more)
  continue_with (closes s, effects) rest = (closes s, effects)
  continue_with (fails e s, effects) rest = (fails e s, effects)
  continue_with (panics, effects) rest = (panics, effects)
  continue_with (tires, effects) rest = (tires, effects)

  unfoldable pub handle_relay : Session S → Option Bytes → Bool → Bool → Bool → Turn S × List Effect
  handle_relay s none listens sends shuts = shut_down s sends shuts
  handle_relay s (some bytes) listens sends shuts =
      let over = if is_empty bytes then lease_over s.lease listens else false in
      if over then shut_down s sends shuts else sent_then s (binary bytes) sends (goes_on s)

module _ {S : Type 0} (buf : Buf) where
  abbrev pub datagram_to : Session S → Option Lease → Bytes → Bool → Turn S × List Effect
  datagram_to s none bytes listens = (fails no_target s, [])
  datagram_to s (some l) bytes listens =
      sent_on s (Lease.send buf s.world.service.network l bytes listens)

  unfoldable pub handle_datagram : Session S → Bytes → Bool → Turn S × List Effect
  handle_datagram s bytes listens = datagram_to s s.lease bytes listens

module _ {S : Type 0} (buf : Buf) (rng : Rng S) (meets : ℕ → Circumstances) where
  unfoldable pub handle_message : Session S → Message → Bool → Bool → Turn S × List Effect
  handle_message s (text bytes) listens sends =
      if is_some s.lease
      then (fails command_late s, [])
      else carry_out s sends (handle_command rng (meets s.handled) s.world s.relay_tx bytes)
  handle_message s (binary bytes) listens sends = handle_datagram buf s bytes listens
  handle_message s (ping bytes) listens sends = sent_then s (pong bytes) sends (goes_on s)
  handle_message s (pong bytes) listens sends = (goes_on s, [])
  handle_message s (close (some f)) listens sends = sent_then s (close (some f)) sends (closes s)
  handle_message s (close none) listens sends = sent_then s (close (some done)) sends (closes s)
  handle_message s (frame bytes) listens sends = (panics, [])

  -- A turn of the loop of `run_client`.
  unfoldable pub step : Session S → Event S → Turn S × List Effect
  step s (arrives message listens sends) = handle_message s message listens sends
  step s breaks = (fails io_error s, [])
  step s ends = (fails already_closed s, [])
  step s (relays bytes listens sends shuts) = handle_relay s bytes listens sends shuts
  step s (elsewhere w) = (goes_on (record s { world = w }), [])

  unfoldable pub run_client : Session S → List (Event S) → Turn S × List Effect
  run_client s [] = (goes_on s, [])
  run_client s (event ∷ events) = continue_with (step s event) (λ s'. run_client s' events)
