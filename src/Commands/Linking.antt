-- ===== src/Commands/Linking.antt =====
-- src/service/commands.rs: NEWADDR, and BIND with what it answers.
use mathlib.Core.Path.{subst}
use mathlib.Core.Logic.{if_pos}
use lwproxy.Base.{
  ℕ, ◌^◌, ◌<◌, ◌≤◌, ◌≡◌, ◌≢◌, refl, sym, ◌∙◌, ap, true, Option, none, some, Bytes, some_inj, length,
}
use lwproxy.Result.{Result, ok, err, panic, ok_inj}
use lwproxy.Code.{Rng, Passcode, codes}
use lwproxy.Text.{parse_u16, pieces}
use lwproxy.Text.Words.{parse_u16-lt}
use lwproxy.Translate.{Sender}
use lwproxy.Network
use lwproxy.Network.{
  NetworkState, BindHandler, Bound, RouteKey-discrete, route, address_for, assignment_of, expire,
}
use lwproxy.Network.Inv.{Inv}
use lwproxy.Network.Assign.{assign-IsFreshlyAssigned}
use lwproxy.Network.Bind.{
  BindEnds, refuses_zero, refuses_unknown, refuses_bound, binds, bind-BindEnds,
}
use lwproxy.Lease.{port_lease}
use lwproxy.Service
use lwproxy.Service.{ProxyService}
use lwproxy.Service.Binds.{assign-IsAssignedBy}
use lwproxy.Commands
use lwproxy.Commands.{
  Circumstances, World, Outcome, addr_response, newaddr, newaddr_reply, bind, bind_target,
  bind_reply, handle_command,
}
use lwproxy.Commands.Texts.{bind_command, handle_command-bind}

-- What others left alone since an address was given: the tables agree, no assignment has expired or
-- gone, and no port is bound on an address that was not assigned before.
pub record Meanwhile (now : ℕ) (before after later : NetworkState) : Type 0 where
  pub consistent : Inv later
  pub kept :
      (p : Passcode) (address : ℕ)
      → address_for after p ≡ some address
      → address_for later p ≡ some address
  pub unused :
      (address port : ℕ)
      → assignment_of (expire now before) address ≡ none
      → route later (address, port) ≡ none

module _ (st : NetworkState) (v : Inv st) (address : ℕ) (p : Passcode)
    (leads : address_for st p ≡ some address) where
  after-bind :
      (now port : ℕ) (relay egress : Sender)
      → port ≢ 0
      → port < 2 ^ 16
      → route st (address, port) ≡ none
      → (b : Bound) × (Network.bind st now p port relay egress ≡ ok b)
        × (b.handler ≡ record { key = (address, port); egress = egress })
        × (route b.network (address, port) ≡ some relay)
  after-bind now port relay egress pos small unrouted =
      bound_of (bind-BindEnds st v now p port relay egress small)
    where
      bound_of :
          BindEnds st now p port relay egress (Network.bind st now p port relay egress)
          → (b : Bound) × (Network.bind st now p port relay egress ≡ ok b)
            × (b.handler ≡ record { key = (address, port); egress = egress })
            × (route b.network (address, port) ≡ some relay)
      bound_of (refuses_zero z e) = absurd (pos z)
      bound_of (refuses_unknown n none_there e) = absurd (cc (none_there, leads))
      bound_of (refuses_bound a other n owned bound e) =
          let same : a ≡ address = some_inj (sym owned ∙ leads) in
          absurd (cc (ap (λ x. route st (x, port)) same, bound, unrouted))
      bound_of (binds a b n e w) =
          let same : a ≡ address = some_inj (sym w.owned ∙ leads) in
          let key : (a, port) ≡ (address, port) = ap (λ x. (x, port)) same in
          (
            b,
            e,
            ap (λ k. record { key = k; egress = b.handler.egress }) (w.key ∙ key)
                ∙ ap (λ g. record { key = (address, port); egress = g }) w.egress_kept,
            w.routes (address, port)
                ∙ if_pos (RouteKey-discrete (address, port) (a, port)) (sym key) (some relay)
                    (route st (address, port)),
          )

-- The client was told an address and a passcode, and with them it binds the port, in a later world: from
-- then on the route of that port leads to its relay.
pub record IsLinked {S : Type 0} (rng : Rng S) (c : Circumstances) (relay : Sender)
    (port_text : Bytes) (port : ℕ) (w' : World S) (o : Outcome S) : Type 0 where
  pub address : ℕ
  pub passcode : Passcode
  pub told : o.result.response ≡ addr_response address passcode
  pub bound : Outcome S
  pub binds : handle_command rng c w' o.relay (bind_command passcode port_text) ≡ ok (some bound)
  pub result : bound.result ≡ record {
    response = codes "BIND OK";
    new_lease = some (port_lease (record { key = (address, port); egress = c.channel }));
    relay_udp = true;
  }
  pub leads : route bound.world.service.network (address, port) ≡ some relay

module _ {S : Type 0} (rng : Rng S) (c c' : Circumstances) (w w' : World S)
    (v : Inv w.service.network) (relay : Sender) (port_text : Bytes) (port : ℕ)
    (reads : parse_u16 port_text ≡ some port) (pos : port ≢ 0)
    (short : length port_text ≤ 229) where
  linked :
      (address : ℕ) (p : Passcode) (st : NetworkState) (seed : S)
      → Network.assign rng c.fuel c.tries c.now c.later w.service.network w.seed
        ≡ ok (some (address, p, st, seed))
      → Meanwhile c.now w.service.network st w'.service.network
      → IsLinked rng c' relay port_text port w' (record {
        result = Commands.answer (addr_response address p);
        relay = some relay;
        world = record { service = record w.service { network = st }; seed = seed };
        started = none;
      })
  unfolding bind Service.bind bind_target
  linked address p st seed assigned m =
      let fresh =
        assign-IsFreshlyAssigned rng c.fuel c.tries c.now c.later w.service.network w.seed
          {s' = seed} v assigned in
      let (b, e, handler, leads) =
        after-bind w'.service.network m.consistent address p (m.kept p address fresh.leads_there)
          c'.now port relay c'.channel pos (parse_u16-lt port_text port reads)
          (m.unused address port fresh.was_free) in
      record {
        address = address;
        passcode = p;
        told = refl;
        bound = record {
          result = record {
            response = codes "BIND OK";
            new_lease = some (port_lease b.handler);
            relay_udp = true;
          };
          relay = none;
          world = record { service = record w'.service { network = b.network }; seed = w'.seed };
          started = some (Service.translation b.task);
        };
        binds =
            handle_command-bind p port_text port fresh.reads_back reads rng c' _ (some relay) short
            ∙ rw (fresh.reads_back, reads, e) refl;
        result =
            ap
              (λ h. record {
                response = codes "BIND OK";
                new_lease = some (port_lease h);
                relay_udp = true;
              })
              handler;
        leads = leads;
      }

  -- While the tables agree, a client that sends NEWADDR and is answered is told an address and a
  -- passcode, and keeps its relay. Others may act before its next command, as long as the tables
  -- agree then, no passcode that led to an address has gone, so that no assignment has expired, and
  -- no port is bound on an address that was not assigned before NEWADDR. If that command is BIND
  -- with the passcode, UDP and a text of at most 229 bytes that reads as a port other than 0, the
  -- client gets a lease on that port of the address it was told, and the route of the port leads to
  -- its relay.
  pub handle_command-IsLinked :
      (o : Outcome S)
      → handle_command rng c w (some relay) (codes "NEWADDR") ≡ ok (some o)
      → Meanwhile c.now w.service.network o.world.service.network w'.service.network
      → IsLinked rng c' relay port_text port w' o
  unfolding handle_command pieces newaddr
  handle_command-IsLinked o h m =
      replied (Service.assign rng c.fuel c.tries c.now c.later w.service w.seed) refl h m
    where
      replied :
          (r : Result (Option (ℕ × Passcode × ProxyService × S)))
          → Service.assign rng c.fuel c.tries c.now c.later w.service w.seed ≡ r
          → newaddr_reply (some relay) r ≡ ok (some o)
          → Meanwhile c.now w.service.network o.world.service.network w'.service.network
          → IsLinked rng c' relay port_text port w' o
      replied (ok (some (address, p, s, seed))) e h m =
          let (st, assigned, same) =
            assign-IsAssignedBy rng c.fuel c.tries c.now c.later w.service w.seed address p s seed
              e in
          subst
            (λ (x : Outcome S).
              Meanwhile c.now w.service.network x.world.service.network w'.service.network
              → IsLinked rng c' relay port_text port w' x)
            (ap
                (λ x. record {
                  result = Commands.answer (addr_response address p);
                  relay = some relay;
                  world = record { service = x; seed = seed };
                  started = none;
                })
                (sym same)
              ∙ some_inj (ok_inj h))
            (linked address p st seed assigned) m
      replied (ok none) e h m = cc
      replied (err x) e h m = cc
      replied panic e h m = cc
