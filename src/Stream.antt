-- ===== src/Stream.antt =====
-- src/webtransport/client.rs: a client on a WebTransport session. The answers of the session, its
-- streams and channels come with the events, and what is done to them is a list of effects. The n-th
-- command that a session handles meets the n-th circumstances.
pub mod Turns
pub mod Fuel
pub mod Chunks
pub mod Phases
pub mod Commanding
pub mod Sound
pub mod Runs
pub mod Relays
use mathlib.Core.Option
use lwproxy.Base.{
  ℕ, zero, suc, ◌+◌, Bool, true, false, not, ◌&&◌, ◌||◌, List, [], ◌∷◌, ◌++◌, Option, none, some,
  is_some, is_empty, leb, ◌==◌, if◌then◌else◌, length, take, drop, Bytes,
}
use lwproxy.Result.{
  Result, ok, err, panic, ◌>>=◌, ◌>>◌, ensure, Error, lease_ended, relay_ended, command_too_large,
  datagram_session, reliable_session, extra_stream, unidirectional_stream, io_error,
}
use lwproxy.Wire.{Buf}
use lwproxy.Code.{Rng}
use lwproxy.Translate.{Sender}
use lwproxy.Lease
use lwproxy.Lease.{Lease, Delivery}
use lwproxy.Service.{ProxyService, Started}
use lwproxy.Commands.{
  max_command_size, Circumstances, World, CommandResult, Outcome, handle_command,
}

-- The bytes before the first newline, and those behind it.
unfoldable pub split_line : Bytes → Option (Bytes × Bytes)
split_line [] = none
split_line (b ∷ bytes) =
    let later = Option.map (λ (r : Bytes × Bytes). (b ∷ r.0, r.1)) (split_line bytes) in
    if b == 10 then some ([], bytes) else later

-- What the n-th command of a session meets: also whether the two writes of its answer succeed.
pub record Met : Type 0 where
  pub circumstances : Circumstances
  pub response_written : Bool
  pub newline_written : Bool

-- `WebTransportClientRunner`, with the other half of the stream, the channel that the relay is read from, the number of commands that were
-- handled, and the world that all clients share.
pub record Session (S : Type 0) : Type 0 where
  pub lease : Option Lease
  pub send : Bool
  pub recv : Bool
  pub relay_tx : Option Sender
  pub relay_rx : Sender
  pub relay_udp : Bool
  pub cmdbuf : Bytes
  pub handled : ℕ
  pub world : World S

-- A new runner, once `handle_session` has made the relay.
abbrev pub new : {S : Type 0} → World S → Sender → Session S
new w relay = record {
  lease = none;
  send = false;
  recv = false;
  relay_tx = some relay;
  relay_rx = relay;
  relay_udp = false;
  cmdbuf = [];
  handled = 0;
  world = w;
}

pub data Effect : Type 0 where
  write_all : Bytes → Effect
  send_datagram : Bytes → Effect
  deliver : Delivery → Effect
  start : Started → Effect

-- A session that fails is dropped as it stands; `tires` when the fuel of a command runs out.
pub data Turn (S : Type 0) : Type 0 where
  goes_on : Session S → Turn S
  fails : Error → Session S → Turn S
  panics tires : Turn S

pub data Event (S : Type 0) : Type 0 where
  -- A stream, if it could be accepted.
  accepts_bi accepts_uni : Bool → Event S
  -- Bytes of the stream, none of them at its end, or an error; whether a lease's task listens.
  reads : Option Bytes → Bool → Event S
  datagram : Option Bytes → Bool → Event S
  -- From the relay, `none` once it is closed; whether the lease's task listens, and whether what is
  -- sent to the client goes through.
  relayed : Option Bytes → Bool → Bool → Event S
  -- Other clients take their turns: the world that they leave.
  elsewhere : World S → Event S

abbrev pub continue_with :
    {S : Type 0} → Turn S × List Effect → (Session S → Turn S × List Effect) → Turn S × List Effect
continue_with (goes_on s, effects) rest = let (last, more) = rest s in (last, effects ++ more)
continue_with (fails e s, effects) rest = (fails e s, effects)
continue_with (panics, effects) rest = (panics, effects)
continue_with (tires, effects) rest = (tires, effects)

abbrev pub started : Option Started → List Effect
started none = []
started (some task) = start task ∷ []

-- Whether an empty message of the relay ends the session.
abbrev pub lease_over : Option Lease → Bool → Bool
lease_over none listens = false
lease_over (some l) listens = not (Lease.is_live l listens)

-- The lease of a command that gave one.
abbrev pub leased : {S : Type 0} → Session S → Option Lease → Bool → Session S
leased s none udp = s
leased s (some l) udp = record s { lease = some l; relay_udp = udp }

module _ {S : Type 0} where
  -- The session once a command was carried out.
  abbrev pub took : Session S → Outcome S → Session S
  took s o =
      leased (record s { relay_tx = o.relay; handled = suc s.handled; world = o.world })
        o.result.new_lease o.result.relay_udp

  abbrev pub write_answer : Session S → Met → Bytes → Turn S × List Effect
  write_answer s met response =
      if not s.send
      then (panics, [])
      else if not met.response_written
      then (fails io_error s, write_all response ∷ [])
      else if not met.newline_written
      then (fails io_error s, write_all response ∷ write_all (10 ∷ []) ∷ [])
      else (goes_on s, write_all response ∷ write_all (10 ∷ []) ∷ [])

  -- What follows on a command.
  abbrev pub carry_out : Session S → Met → Result (Option (Outcome S)) → Turn S × List Effect
  carry_out s met (err e) = (fails e s, [])
  carry_out s met panic = (panics, [])
  carry_out s met (ok none) = (tires, [])
  carry_out s met (ok (some o)) =
      let (turn, effects) = write_answer (took s o) met o.result.response in
      (turn, started o.started ++ effects)

  abbrev pub sent_on : Session S → Result Delivery → Turn S × List Effect
  sent_on s (ok d) = (goes_on s, deliver d ∷ [])
  sent_on s (err e) = (fails e s, [])
  sent_on s panic = (panics, [])

module _ {S : Type 0} (buf : Buf) where
  -- `lease.send`, on a lease that is unwrapped.
  abbrev pub send_to : Session S → Option Lease → Bytes → Bool → Turn S × List Effect
  send_to s none bytes listens = (panics, [])
  send_to s (some l) bytes listens =
      sent_on s (Lease.send buf s.world.service.network l bytes listens)

  unfoldable pub relay_stream : Session S → Bytes → Bool → Turn S × List Effect
  relay_stream s bytes listens =
      if is_empty bytes
      then (goes_on s, [])
      else if s.relay_udp
      then (fails datagram_session s, [])
      else send_to s s.lease bytes listens

  abbrev pub datagram_to : Session S → Option Lease → Bytes → Bool → Turn S × List Effect
  datagram_to s none msg listens = (goes_on s, [])
  datagram_to s (some l) msg listens =
      if not s.relay_udp
      then (fails reliable_session s, [])
      else sent_on s (Lease.send buf s.world.service.network l msg listens)

  unfoldable pub handle_datagram : Session S → Bytes → Bool → Turn S × List Effect
  handle_datagram s msg listens = datagram_to s s.lease msg listens

  unfoldable pub handle_relay : Session S → Option Bytes → Bool → Bool → Turn S × List Effect
  handle_relay s none listens sends = (fails relay_ended s, [])
  handle_relay s (some bytes) listens sends =
      if is_empty bytes
      then ((if lease_over s.lease listens then fails lease_ended s else goes_on s), [])
      else if s.relay_udp
      then ((if sends then goes_on s else fails io_error s), send_datagram bytes ∷ [])
      else if not s.send
      then (panics, [])
      else ((if sends then goes_on s else fails io_error s), write_all bytes ∷ [])

module _ {S : Type 0} (buf : Buf) (rng : Rng S) (meets : ℕ → Met) where
  abbrev pub command : Session S → Bytes → Turn S × List Effect
  command s cmd =
      carry_out s (meets s.handled)
        (handle_command rng (meets s.handled).circumstances s.world s.relay_tx cmd)

  -- One round of the loop over the commands, with the rounds that follow it.
  abbrev pub round :
      (Session S → Turn S × List Effect)
      → Bool
      → Session S
      → Option Lease
      → Option (Bytes × Bytes)
      → Turn S × List Effect
  round again listens s (some l) line = relay_stream buf (record s { cmdbuf = [] }) s.cmdbuf listens
  round again listens s none none =
      if leb max_command_size (length s.cmdbuf)
      then (fails command_too_large s, [])
      else (goes_on s, [])
  round again listens s none (some (cmd, rest)) =
      continue_with (command (record s { cmdbuf = rest }) cmd) again

  -- The loop, in at most so many rounds.
  unfoldable pub commands : ℕ → Bool → Session S → Turn S × List Effect
  commands zero listens s = (tires, [])
  commands (suc fuel) listens s =
      round (λ s'. commands fuel listens s') listens s s.lease (split_line s.cmdbuf)

  -- A round that goes on takes a newline from the buffer.
  unfoldable pub handle_data : Session S → Bytes → Bool → Turn S × List Effect
  handle_data s bytes listens =
      let s' = record s { cmdbuf = s.cmdbuf ++ bytes } in
      let result = commands (suc (length s'.cmdbuf)) listens s' in
      if is_some s.lease then relay_stream buf s bytes listens else result

  -- A turn of the loop of `handle_session`. The stream is read only while it is there.
  unfoldable pub step : Session S → Event S → Turn S × List Effect
  step s (accepts_bi accepted) =
      if s.send || s.recv
      then (fails extra_stream s, [])
      else if accepted
      then (goes_on (record s { send = true; recv = true }), [])
      else (fails io_error s, [])
  step s (accepts_uni accepted) =
      ((if accepted then fails unidirectional_stream s else fails io_error s), [])
  step s (reads none listens) = if s.recv then (fails io_error s, []) else (goes_on s, [])
  step s (reads (some bytes) listens) =
      let result = handle_data s bytes listens in
      if s.recv
      then if is_empty bytes then (goes_on (record s { recv = false }), []) else result
      else (goes_on s, [])
  step s (datagram none listens) = (fails io_error s, [])
  step s (datagram (some msg) listens) = handle_datagram buf s msg listens
  step s (relayed bytes listens sends) = handle_relay buf s bytes listens sends
  step s (elsewhere w) = (goes_on (record s { world = w }), [])

  unfoldable pub run : Session S → List (Event S) → Turn S × List Effect
  run s [] = (goes_on s, [])
  run s (event ∷ events) = continue_with (step s event) (λ s'. run s' events)
