-- ===== src/Tests/DeliveryTests.antt =====
-- Two clients on two ports of one address: the second, over WebTransport, sends to the first.
use lwproxy.Base.{ℕ, ◌≡◌, refl, [], ◌∷◌, ◌++◌, none, some, true, Bytes, arith, ℕ_discrete}
use lwproxy.Result.{ok}
use lwproxy.Wire.{be_bytes, from_be_from}
use lwproxy.Wire.Model.{plain_buf, split_at}
use lwproxy.HashMap
use lwproxy.Code
use lwproxy.Code.{codes, Passcode-discrete}
use lwproxy.Frame
use lwproxy.Frame.{Frame, decode}
use lwproxy.Network
use lwproxy.Network.{NetworkState, BindHandler, RouteKey-discrete, to_relay}
use lwproxy.Lease.{port_lease, by_network}
use lwproxy.Service
use lwproxy.Commands.{handle_command}
use lwproxy.Stream
use lwproxy.Stream.{Met}
use lwproxy.Proxy.{Proxy, readers, on_socket, on_stream, Reach, next, streams}
use lwproxy.Proxy.Bindings.{Binds}
use lwproxy.Proxy.Delivery.{sends, hears, hears-sends}
use lwproxy.Tests.Sample.{counting, first_address, first_passcode, bound}
use lwproxy.Tests.CommandTests.{meets}
use lwproxy.Tests.ProxyTests.{first, second, leased, opening, tables, leased-Reach}

abbrev pub met : ℕ → Met
met n = record { circumstances = meets 4; response_written = true; newline_written = true }

abbrev both : NetworkState
both = record {
  by_address =
      HashMap.insert ℕ_discrete bound.network.by_address first_address
        (record { passcode = first_passcode; binds = 2; touched = 10 });
  by_passcode = bound.network.by_passcode;
  routes = HashMap.insert RouteKey-discrete bound.network.routes (first_address, 30001) 5;
}

abbrev pub next_door : BindHandler
next_door = record { key = (first_address, 30001); egress = 2 }

abbrev opened : Stream.Session ℕ
opened = record opening { send = true; recv = true; world = tables bound.network 17 }

abbrev pub lodged : Stream.Session ℕ
lodged = record opened {
  lease = some (port_lease next_door);
  relay_tx = none;
  relay_udp = true;
  handled = 1;
  world = tables both 17;
}

abbrev pub lodgers : Proxy ℕ
lodgers = record {
  world = tables both 17;
  clients =
      record { handle = second; stage = on_stream lodged }
      ∷ record { handle = first; stage = on_socket leased }
      ∷ [];
}

pub lodgers-Reach : Reach plain_buf counting 2 lodgers
unfolding Stream.step Stream.handle_data Stream.commands Stream.split_line Stream.relay_stream
    handle_command lwproxy.Text.pieces HashMap.get HashMap.insert HashMap.remove Network.expire
    Network.forget Service.new Network.new HashMap.new Passcode-discrete from_be_from be_bytes
    Service.bind Network.bind Code.parse lwproxy.Text.parse_u16 Network.record_assignment ℕ_discrete
    lwproxy.Network.RouteKey-discrete lwproxy.Translate.translator Service.new_client
lodgers-Reach =
    next
      (next leased-Reach (
        streams [] second (record { handle = first; stage = on_socket leased } ∷ []) opening met
          (Stream.accepts_bi true) (on_stream opened) (tables bound.network 17) refl tt refl))
      (streams [] second (record { handle = first; stage = on_socket leased } ∷ []) opened met
        (Stream.reads (some (codes "BIND BCDEFGHIJKLMNOPQ UDP 30001" ++ (10 ∷ []))) true)
        (on_stream lodged) (tables both 17) refl tt refl)

pub second-Binds : Binds lodgers (on_stream lodged) next_door
second-Binds = record {
  before = [];
  handle = second;
  after = record { handle = first; stage = on_socket leased } ∷ [];
  at = refl;
  running = refl;
  leases = refl;
}

first-Binds : Binds lodgers (on_socket leased) bound.handler
first-Binds = record {
  before = record { handle = second; stage = on_stream lodged } ∷ [];
  handle = first;
  after = [];
  at = refl;
  running = refl;
  leases = refl;
}

abbrev letter : Frame
letter = record { peer_ip = first_address; peer_port = 30000; content = 1 ∷ 2 ∷ 3 ∷ [] }

abbrev letter_bytes : Bytes
letter_bytes =
    0x77 ∷ 0x8B ∷ 0x4C ∷ 0xF6 ∷ 0xfd ∷ 0 ∷ 0 ∷ 0 ∷ 0 ∷ 0 ∷ 0 ∷ 0 ∷ 0 ∷ 0 ∷ 0 ∷ 0 ∷ 0 ∷ 0 ∷ 1 ∷ 44
    ∷ 117 ∷ 48 ∷ 0 ∷ 3 ∷ 1 ∷ 2 ∷ 3 ∷ []

letter_runs : decode plain_buf letter_bytes ≡ ok letter
unfolding decode split_at from_be_from
letter_runs = refl

hears-sends_example :
    (out : Bytes) × (sends plain_buf counting met lodgers.world (on_stream lodged) letter_bytes true
      ≡ some (by_network (to_relay 1 out ∷ [])))
    × (decode plain_buf out ≡ ok (Frame.new first_address 30001 letter.content))
    × (hears plain_buf counting met lodgers.world (on_socket leased) out true ≡ some out)
    × (readers 1 lodgers.clients ≡ 1)
hears-sends_example =
    hears-sends plain_buf counting met 2 lodgers (on_stream lodged) (on_socket leased) next_door
      bound.handler letter_bytes letter true true lodgers-Reach (omega arith) second-Binds
      first-Binds (omega arith) letter_runs refl
