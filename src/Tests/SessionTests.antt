-- ===== src/Tests/SessionTests.antt =====
-- Sessions: a client that asks for an address and binds a port, over either transport.
use lwproxy.Base.{ℕ, ◌+◌, ◌≡◌, refl, [], ◌∷◌, ◌++◌, none, some, true, false, Bytes, List}
use lwproxy.Wire.{be_bytes, from_be_from}
use lwproxy.Wire.Model.{plain_buf}
use lwproxy.HashMap
use lwproxy.Code
use lwproxy.Code.{codes, Passcode-discrete}
use lwproxy.Network
use lwproxy.Lease.{port_lease}
use lwproxy.Service
use lwproxy.Service.{translation}
use lwproxy.Commands.{handle_command}
use lwproxy.Stream
use lwproxy.Stream.{
  Met, Session, Event, accepts_bi, reads, goes_on, write_all, start, handle_data, continue_with,
}
use lwproxy.Stream.Chunks.{handle_data-append}
use lwproxy.Stream.Phases.{unopened, Leaves, Dropped, Shared, Plays}
use lwproxy.Stream.Runs.{run-Leaves}
use lwproxy.Socket
use lwproxy.Socket.Phases
use lwproxy.Socket.Runs
use lwproxy.Socket.Runs.{run_client-Leaves}
use lwproxy.Tests.Sample.{counting, bound}
use lwproxy.Tests.CommandTests.{
  world, meets, newaddr_text, bind_text, with_tables, world-Reach, given, given-Reach,
}

abbrev met : ℕ → Met
met n = record { circumstances = meets (n + n); response_written = true; newline_written = true }

abbrev opened : Session ℕ
opened = record (Stream.new world 1) { send = true; recv = true }

-- The first piece ends within the second command.
abbrev first_piece : Bytes
first_piece = newaddr_text ++ (10 ∷ codes "BIND BCDEF")

abbrev second_piece : Bytes
second_piece = codes "GHIJKLMNOPQ UDP 30000" ++ (10 ∷ [])

abbrev addressed : Session ℕ
addressed = record opened { cmdbuf = codes "BIND BCDEF"; handled = 1; world = given.world }

abbrev leased : Session ℕ
leased = record {
  lease = some (port_lease bound.handler);
  send = true;
  recv = true;
  relay_tx = none;
  relay_rx = 1;
  relay_udp = true;
  cmdbuf = [];
  handled = 2;
  world = with_tables bound.network 17;
}

first_runs :
    handle_data plain_buf counting met opened first_piece true
    ≡ (goes_on addressed, write_all given.result.response ∷ write_all (10 ∷ []) ∷ [])
unfolding handle_data Stream.commands Stream.split_line handle_command lwproxy.Text.pieces
    Service.assign Network.assign Network.assign_loop Code.random_address Code.random_code Code.new
    HashMap.get HashMap.insert HashMap.remove Network.expire Network.forget Service.new Network.new
    HashMap.new lwproxy.IpText.show_ipv6 Passcode-discrete from_be_from be_bytes Service.bind
    Network.bind Code.parse lwproxy.Text.parse_u16 Network.record_assignment lwproxy.Base.ℕ_discrete
    lwproxy.Network.RouteKey-discrete lwproxy.Translate.translator
first_runs = refl

second_runs : handle_data plain_buf counting met addressed second_piece true ≡ (
  goes_on leased,
  start (translation bound.task) ∷ write_all (codes "BIND OK") ∷ write_all (10 ∷ []) ∷ [],
)
unfolding handle_data Stream.commands Stream.split_line Stream.relay_stream handle_command
    lwproxy.Text.pieces Service.assign Network.assign Network.assign_loop Code.random_address
    Code.random_code Code.new HashMap.get HashMap.insert HashMap.remove Network.expire
    Network.forget Service.new Network.new HashMap.new lwproxy.IpText.show_ipv6 Passcode-discrete
    from_be_from be_bytes Service.bind Network.bind Code.parse lwproxy.Text.parse_u16
    Network.record_assignment lwproxy.Base.ℕ_discrete lwproxy.Network.RouteKey-discrete
    lwproxy.Translate.translator
second_runs = refl

handle_data-append_example :
    handle_data plain_buf counting met opened (first_piece ++ second_piece) true
    ≡ continue_with
        (goes_on addressed, write_all given.result.response ∷ write_all (10 ∷ []) ∷ [])
        (λ t. handle_data plain_buf counting met t second_piece true)
handle_data-append_example =
    handle_data-append plain_buf counting met true opened addressed _ first_piece second_piece refl
      first_runs refl

abbrev events : List (Event ℕ)
events = accepts_bi true ∷ reads (some first_piece) true ∷ reads (some second_piece) true ∷ []

events-Plays : Plays plain_buf counting met (Stream.new world 1) events
unfolding Stream.step handle_data Stream.commands Stream.split_line Stream.relay_stream
    handle_command lwproxy.Text.pieces Service.assign Network.assign Network.assign_loop
    Code.random_address Code.random_code Code.new HashMap.get HashMap.insert HashMap.remove
    Network.expire Network.forget Service.new Network.new HashMap.new lwproxy.IpText.show_ipv6
    Passcode-discrete from_be_from be_bytes Service.bind Network.bind Code.parse
    lwproxy.Text.parse_u16 Network.record_assignment lwproxy.Base.ℕ_discrete
    lwproxy.Network.RouteKey-discrete lwproxy.Translate.translator
events-Plays = (tt, (tt, (tt, tt)))

run-Leaves_example :
    Leaves
      (Shared counting)
      (Dropped counting)
      (Stream.run plain_buf counting met (Stream.new world 1) events)
run-Leaves_example =
    run-Leaves counting plain_buf met (Stream.new world 1) events
      (unopened refl refl refl refl refl, ([], world-Reach)) events-Plays

-- Another client asks for the address first.
abbrev messages : List (Socket.Event ℕ)
messages =
    Socket.elsewhere given.world
    ∷ Socket.arrives (Socket.ping (1 ∷ [])) true true
    ∷ Socket.arrives (Socket.text bind_text) true true
    ∷ []

socket_runs : Socket.run_client plain_buf counting (λ n. meets 2) (Socket.new world 1) messages ≡ (
  Socket.goes_on (record {
    relay_tx = none;
    relay_rx = 1;
    lease = some (port_lease bound.handler);
    handled = 1;
    world = with_tables bound.network 17;
  }),
  Socket.send (Socket.pong (1 ∷ []))
      ∷ Socket.start (translation bound.task)
      ∷ Socket.send (Socket.text (codes "BIND OK"))
      ∷ [],
)
unfolding Socket.run_client Socket.step Socket.handle_message handle_command lwproxy.Text.pieces
    Service.assign Network.assign Network.assign_loop Code.random_address Code.random_code Code.new
    HashMap.get HashMap.insert HashMap.remove Network.expire Network.forget Service.new Network.new
    HashMap.new lwproxy.IpText.show_ipv6 Passcode-discrete from_be_from be_bytes Service.bind
    Network.bind Code.parse lwproxy.Text.parse_u16 Network.record_assignment lwproxy.Base.ℕ_discrete
    lwproxy.Network.RouteKey-discrete lwproxy.Translate.translator
socket_runs = refl

messages-Plays : Socket.Runs.Plays counting plain_buf (λ n. meets 2) (Socket.new world 1) messages
unfolding Socket.run_client Socket.step Socket.handle_message handle_command lwproxy.Text.pieces
    Service.assign Network.assign Network.assign_loop Code.random_address Code.random_code Code.new
    HashMap.get HashMap.insert HashMap.remove Network.expire Network.forget Service.new Network.new
    HashMap.new lwproxy.IpText.show_ipv6 Passcode-discrete from_be_from be_bytes Service.bind
    Network.bind Code.parse lwproxy.Text.parse_u16 Network.record_assignment lwproxy.Base.ℕ_discrete
    lwproxy.Network.RouteKey-discrete lwproxy.Translate.translator
messages-Plays = (([], given-Reach), (tt, (tt, tt)))

run_client-Leaves_example :
    Socket.Phases.Leaves
      (Socket.Runs.Shared counting)
      (Socket.Runs.Dropped counting)
      (Socket.run_client plain_buf counting (λ n. meets 2) (Socket.new world 1) messages)
run_client-Leaves_example =
    run_client-Leaves counting plain_buf (λ n. meets 2) (Socket.new world 1) messages
      (Socket.Phases.commanding refl refl, ([], world-Reach)) messages-Plays
