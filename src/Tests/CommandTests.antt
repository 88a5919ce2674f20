-- ===== src/Tests/CommandTests.antt =====
-- Commands: a client asks for an address and binds a port.
use lwproxy.Base.{◌⊎◌, arith, ℕ, ◌+◌, ◌≡◌, refl, [], ◌∷◌, none, some, true, false, Bytes}
use lwproxy.Result.{ok, err, command_empty, proxy_udp, proxy_family_mismatch, bind_no_relay}
use lwproxy.Code
use lwproxy.Code.{codes, Passcode-discrete}
use lwproxy.HashMap
use lwproxy.Wire.{be_bytes, from_be_from}
use lwproxy.Network
use lwproxy.Network.{NetworkState, BindHandler}
use lwproxy.Network.Leases.{System, Step, Reach, here}
use lwproxy.Lease.{port_lease}
use lwproxy.Service
use lwproxy.Service.{translation}
use lwproxy.Commands.{Circumstances, World, Outcome, answer, handle_command}
use lwproxy.Commands.Ends.{CommandEnds, handle_command-CommandEnds}
use lwproxy.Commands.Refines.{after, handle_command-steps, handle_command-Reach}
use lwproxy.Tests.Sample.{counting, assigned, bound}

abbrev pub world : World ℕ
world = record { service = Service.new; seed = 0 }

abbrev pub meets : ℕ → Circumstances
meets n = record { now = 6 + n; later = 7 + n; fuel = 1; tries = 1; channel = 2 }

abbrev pub newaddr_text : Bytes
newaddr_text = codes "NEWADDR"

abbrev pub bind_text : Bytes
bind_text = codes "BIND BCDEFGHIJKLMNOPQ UDP 30000"

abbrev pub with_tables : NetworkState → ℕ → World ℕ
with_tables st seed = record {
  service = record { counter = 1; clients = HashMap.new; network = st };
  seed = seed;
}

abbrev pub given : Outcome ℕ
given = record {
  result = answer (codes "ADDR fd00::12c BCDEFGHIJKLMNOPQ");
  relay = some 1;
  world = with_tables assigned 17;
  started = none;
}

pub newaddr_runs : handle_command counting (meets 0) world (some 1) newaddr_text ≡ ok (some given)
unfolding handle_command lwproxy.Text.pieces Service.assign Network.assign Network.assign_loop
    Code.random_address Code.random_code Code.new HashMap.get HashMap.insert HashMap.remove
    Network.expire Network.forget Service.new Network.new HashMap.new lwproxy.IpText.show_ipv6
    Passcode-discrete from_be_from be_bytes
newaddr_runs = refl

abbrev pub bound_outcome : Outcome ℕ
bound_outcome = record {
  result = record {
    response = codes "BIND OK";
    new_lease = some (port_lease bound.handler);
    relay_udp = true;
  };
  relay = none;
  world = with_tables bound.network 17;
  started = some (translation bound.task);
}

command_runs :
    (handle_command counting (meets 2) (with_tables assigned 17) (some 1) (codes "PING me")
      ≡ ok (
          some (record {
            result = answer (codes "PONG me");
            relay = some 1;
            world = with_tables assigned 17;
            started = none;
          })))
    × (handle_command counting (meets 2) (with_tables assigned 17) (some 1) (codes "  ")
        ≡ err command_empty)
    × (handle_command counting
          (meets 2)
          (with_tables assigned 17)
          (some 1)
          (codes "PROXY IPV4 UDP 1.2.3.4 80")
        ≡ err proxy_udp)
    × (handle_command counting
          (meets 2)
          (with_tables assigned 17)
          (some 1)
          (codes "PROXY IPV6 TCP 1.2.3.4 80")
        ≡ err proxy_family_mismatch)
    × (handle_command counting (meets 2) (with_tables assigned 17) none (codes "BIND x")
        ≡ err bind_no_relay)
unfolding handle_command lwproxy.Text.pieces lwproxy.IpText.parse_ip lwproxy.IpText.read_ipv4
    lwproxy.IpText.read_number lwproxy.IpText.read_digits lwproxy.Text.parse_u16
command_runs = (refl, refl, refl, refl, refl)

pub bind_command_runs :
    handle_command counting (meets 2) (with_tables assigned 17) (some 1) bind_text
    ≡ ok (some bound_outcome)
unfolding handle_command Service.bind Network.bind lwproxy.Text.pieces Code.parse
    lwproxy.Text.parse_u16 HashMap.get HashMap.insert HashMap.remove Network.record_assignment
    Network.expire Network.forget Network.new HashMap.new Passcode-discrete lwproxy.Base.ℕ_discrete
    lwproxy.Network.RouteKey-discrete lwproxy.Translate.translator
bind_command_runs = refl

handle_command-CommandEnds_example :
    CommandEnds
      (meets 2)
      (some 1)
      (handle_command counting (meets 2) (with_tables assigned 17) (some 1) bind_text)
handle_command-CommandEnds_example =
    handle_command-CommandEnds counting (meets 2) (with_tables assigned 17) (some 1) bind_text

pub world-Reach : Reach counting (record { network = world.service.network; leases = [] })
unfolding Service.new
world-Reach = here

abbrev world_held : System
world_held = record { network = world.service.network; leases = [] }

handle_command-steps_example :
    ((after (some 1) world_held given ≡ world_held)
      ⊎ Step counting world_held (after (some 1) world_held given))
    × (given.world.service ≡ record world.service { network = given.world.service.network })
handle_command-steps_example =
    handle_command-steps counting (meets 0) world [] (some 1) newaddr_text given newaddr_runs

pub given-Reach : Reach counting (record { network = given.world.service.network; leases = [] })
given-Reach =
    handle_command-Reach counting (meets 0) world [] (some 1) newaddr_text given world-Reach
      newaddr_runs
