-- ===== src/Tests/ProxyTests.antt =====
-- Two clients: one asks for an address, binds a port and leaves, the other breaks off.
use lwproxy.Base.{arith, ℕ, ◌≡◌, refl, [], ◌∷◌, ◌+◌, none, some, true, ℕ_discrete}
use lwproxy.Wire.{be_bytes, from_be_from}
use lwproxy.Wire.Model.{plain_buf}
use lwproxy.HashMap
use lwproxy.Net.{SocketAddr, v4}
use lwproxy.Code
use lwproxy.Code.{codes, Passcode-discrete}
use lwproxy.Network
use lwproxy.Network.{NetworkState, Assignment, assignment_of, route}
use lwproxy.Translate.{RouteKey}
use lwproxy.Lease
use lwproxy.Lease.{port_lease}
use lwproxy.Service
use lwproxy.Service.{ProxyClientHandle}
use lwproxy.Commands.{Circumstances, World, handle_command}
use lwproxy.Stream
use lwproxy.Stream.{Met}
use lwproxy.Socket
use lwproxy.Proxy
use lwproxy.Proxy.{
  Client, Proxy, ended, removed, on_socket, on_stream, greeting, Reach, here, next, stream_arrives,
  socket_arrives, greets, streams, talks, removes, drops, socket_comes, stream_comes, drop_lease,
}
use lwproxy.Proxy.Sound.{IsSound}
use lwproxy.Proxy.Reached.{Reach-IsSound}
use lwproxy.Proxy.Safety.{Due, due_socket, Succeeds, Due-Succeeds, IsEmptied, clients-left}
use lwproxy.Proxy.Draining.{Leads, drain-IsEmptied}
use lwproxy.Tests.Sample.{counting, assigned, bound}
use lwproxy.Tests.CommandTests.{meets, newaddr_text, bind_text}

abbrev pub near : SocketAddr
near = record { ip = v4 2130706433; port = 4000 }

abbrev pub times : ℕ → Circumstances
times n = meets (n + n)

-- Both clients have come; the second uses WebTransport.
abbrev pub met_by_two : World ℕ
met_by_two = (stream_comes (socket_comes (Proxy.start 0).world near).1 near 5).1

abbrev pub tables : NetworkState → ℕ → World ℕ
tables st seed = record { service = record met_by_two.service { network = st }; seed = seed }

abbrev pub first : ProxyClientHandle
first = record { id = 1; client = record { id = 1; remote_addr = near } }

abbrev pub second : ProxyClientHandle
second = record { id = 2; client = record { id = 2; remote_addr = near } }

abbrev pub addressed : Socket.Session ℕ
addressed = record {
  relay_tx = some 1;
  relay_rx = 1;
  lease = none;
  handled = 1;
  world = tables assigned 17;
}

abbrev pub leased : Socket.Session ℕ
leased = record {
  relay_tx = none;
  relay_rx = 1;
  lease = some (port_lease bound.handler);
  handled = 2;
  world = tables bound.network 17;
}

abbrev pub opening : Stream.Session ℕ
opening = Stream.new met_by_two 5

-- The first client talks, while the second waits.
abbrev pub with_first : World ℕ → Proxy.Stage ℕ → Proxy ℕ
with_first w stage = record {
  world = w;
  clients =
      record { handle = second; stage = on_stream opening }
      ∷ record { handle = first; stage = stage }
      ∷ [];
}

greeted-Reach :
    Reach plain_buf counting 2 (with_first met_by_two (on_socket (Socket.new met_by_two 1)))
unfolding Socket.step Socket.handle_message handle_command lwproxy.Text.pieces Service.assign
    Network.assign Network.assign_loop Code.random_address Code.random_code Code.new HashMap.get
    HashMap.insert HashMap.remove Network.expire Network.forget Service.new Network.new HashMap.new
    lwproxy.IpText.show_ipv6 Passcode-discrete from_be_from be_bytes Service.bind Network.bind
    Code.parse lwproxy.Text.parse_u16 Network.record_assignment ℕ_discrete
    lwproxy.Network.RouteKey-discrete lwproxy.Translate.translator Service.new_client
    lwproxy.Proxy.readers
greeted-Reach = next (next (next (here 0) (socket_arrives near)) (stream_arrives near 5 refl)) (
    greets (record { handle = second; stage = on_stream opening } ∷ []) first [] none true 1 refl
      refl)

pub leased-Reach :
    Reach plain_buf counting 2 (with_first (tables bound.network 17) (on_socket leased))
unfolding Socket.step Socket.handle_message handle_command lwproxy.Text.pieces Service.assign
    Network.assign Network.assign_loop Code.random_address Code.random_code Code.new HashMap.get
    HashMap.insert HashMap.remove Network.expire Network.forget Service.new Network.new HashMap.new
    lwproxy.IpText.show_ipv6 Passcode-discrete from_be_from be_bytes Service.bind Network.bind
    Code.parse lwproxy.Text.parse_u16 Network.record_assignment ℕ_discrete
    lwproxy.Network.RouteKey-discrete lwproxy.Translate.translator Service.new_client
leased-Reach =
    next
      (next greeted-Reach (
        talks (record { handle = second; stage = on_stream opening } ∷ []) first []
          (Socket.new met_by_two 1) times (Socket.arrives (Socket.text newaddr_text) true true)
          (on_socket addressed) (tables assigned 17) refl tt refl))
      (talks (record { handle = second; stage = on_stream opening } ∷ []) first [] addressed times
        (Socket.arrives (Socket.text bind_text) true true) (on_socket leased)
        (tables bound.network 17) refl tt refl)

-- The first client closes its session.
closed-Reach :
    Reach plain_buf counting 2
      (with_first (tables bound.network 17) (ended (some (port_lease bound.handler)) 1))
unfolding Socket.step Socket.handle_message handle_command lwproxy.Text.pieces Service.assign
    Network.assign Network.assign_loop Code.random_address Code.random_code Code.new HashMap.get
    HashMap.insert HashMap.remove Network.expire Network.forget Service.new Network.new HashMap.new
    lwproxy.IpText.show_ipv6 Passcode-discrete from_be_from be_bytes Service.bind Network.bind
    Code.parse lwproxy.Text.parse_u16 Network.record_assignment ℕ_discrete
    lwproxy.Network.RouteKey-discrete lwproxy.Translate.translator Service.new_client
closed-Reach = next leased-Reach (
    talks (record { handle = second; stage = on_stream opening } ∷ []) first [] leased times
      (Socket.arrives (Socket.close none) true true) (ended (some (port_lease bound.handler)) 1)
      (tables bound.network 17) refl tt refl)

abbrev second_alone : World ℕ
second_alone = record {
  service = record met_by_two.service {
    clients = HashMap.remove ℕ_discrete met_by_two.service.clients 1;
    network = bound.network;
  };
  seed = 17;
}

abbrev freed : World ℕ
freed = drop_lease second_alone 20 (some (port_lease bound.handler))

abbrev emptied : World ℕ
emptied = record freed {
  service = record freed.service { clients = HashMap.remove ℕ_discrete freed.service.clients 2 };
}

left-Reach : Reach plain_buf counting 2 (record { world = emptied; clients = [] })
unfolding Socket.step Socket.handle_message handle_command lwproxy.Text.pieces Service.assign
    Network.assign Network.assign_loop Code.random_address Code.random_code Code.new HashMap.get
    HashMap.insert HashMap.remove Network.expire Network.forget Service.new Network.new HashMap.new
    lwproxy.IpText.show_ipv6 Passcode-discrete from_be_from be_bytes Service.bind Network.bind
    Code.parse lwproxy.Text.parse_u16 Network.record_assignment ℕ_discrete
    lwproxy.Network.RouteKey-discrete lwproxy.Translate.translator Service.new_client
    Service.remove_client Lease.close Network.unbind Stream.step
left-Reach =
    next
      (next
        (next
          (next
            (next closed-Reach (
              removes (record { handle = second; stage = on_stream opening } ∷ []) first []
                (some (port_lease bound.handler)) 1 second_alone refl refl))
            (drops (record { handle = second; stage = on_stream opening } ∷ []) first []
              (some (port_lease bound.handler)) 1 20 refl))
          (streams [] second [] opening
            (λ n. record {
              circumstances = meets n;
              response_written = true;
              newline_written = true;
            })
            (Stream.accepts_uni true) (ended none 5) freed refl tt refl))
        (removes [] second [] none 5 emptied refl refl))
      (drops [] second [] none 5 20 refl)

Reach-IsSound_example : IsSound 2 (with_first (tables bound.network 17) (on_socket leased))
Reach-IsSound_example =
    Reach-IsSound plain_buf counting 2 (with_first (tables bound.network 17) (on_socket leased))
      leased-Reach (omega arith)

abbrev closing : Due (with_first (tables bound.network 17) (on_socket leased))
closing =
    due_socket (record { handle = second; stage = on_stream opening } ∷ []) first [] leased times
      (Socket.arrives (Socket.close none) true true) refl tt

Due-Succeeds_example :
    Succeeds plain_buf counting (with_first (tables bound.network 17) (on_socket leased)) closing
Due-Succeeds_example =
    Due-Succeeds plain_buf counting 2 (with_first (tables bound.network 17) (on_socket leased))
      leased-Reach (omega arith) closing

clients-left_example : IsEmptied {S = ℕ} (record { world = emptied; clients = [] })
clients-left_example =
    clients-left plain_buf counting 2 (record { world = emptied; clients = [] }) left-Reach
      (omega arith) refl

drain-IsEmptied_example :
    (q : Proxy ℕ) × Leads plain_buf counting
      (with_first (tables bound.network 17) (on_socket leased))
      q
    × (q.clients ≡ [])
    × IsEmptied q
drain-IsEmptied_example =
    drain-IsEmptied plain_buf counting 2 (omega arith)
      (with_first (tables bound.network 17) (on_socket leased)) leased-Reach
