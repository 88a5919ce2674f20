-- ===== src/Commands/Refines.antt =====
-- src/service/commands.rs: commands as steps of the private network.
use lwproxy.Base.{
  ℕ, ◌≡◌, refl, ap, ◌^◌, ◌<◌, List, [], ◌∷◌, ◌++◌, Option, none, some, Bytes, ◌⊎◌, inl, inr, arith,
  some_inj,
}
use mathlib.Core.Path.{subst}
use lwproxy.Result.{
  bind_each, relabel, ensure, context_ok, bind_bad_passcode, bind_not_udp, bind_bad_port,
  bind_no_relay, proxy_no_relay, newaddr_bad_args, no_such_service, Result, ok, err, panic, Error,
  ◌>>=◌, context, bind_ok, ok_inj, Result-cases,
}
use lwproxy.Net.{SocketAddr}
use lwproxy.Code
use lwproxy.Code.{Rng, Passcode, codes}
use lwproxy.Text.{parse_u16, text_eq}
use lwproxy.Text.Words.{parse_u16-lt}
use lwproxy.Translate.{Sender}
use lwproxy.Network.Leases.{Lent, System, Reach, Step, next, assigns, binds}
use lwproxy.Lease.{Lease, port_lease, dns_lease, connect_lease}
use lwproxy.Service
use lwproxy.Service.{Started, ProxyService}
use lwproxy.Service.Routes.{route-RouteEnds}
use lwproxy.Service.Binds.{bind-IsBoundBy, assign-IsAssignedBy}
use lwproxy.Commands.{
  Circumstances, World, Outcome, proxy, proxy_target, proxied, bind, bind_target, bind_reply,
  newaddr, newaddr_reply, handle_command,
}
use lwproxy.Commands.Cases.{one, handle_command-cases}

-- The leases on ports among those of a command, which was given the relay.
abbrev pub port_leases : Sender → Option Lease → List Lent
port_leases relay none = []
port_leases relay (some (port_lease h)) = record { handler = h; relay = relay } ∷ []
port_leases relay (some (dns_lease l)) = []
port_leases relay (some (connect_lease l)) = []

-- A command gives no lease where there is no relay.
abbrev pub relay_of : Option Sender → Sender
relay_of none = 0
relay_of (some relay) = relay

abbrev pub after : {S : Type 0} → Option Sender → System → Outcome S → System
after relay_tx y o = record {
  network = o.world.service.network;
  leases = port_leases (relay_of relay_tx) o.result.new_lease ++ y.leases;
}

bind_target-lt :
    (args : List Bytes) (p : Passcode) (port : ℕ) → bind_target args ≡ ok (p, port) → port < 2 ^ 16
unfolding bind_target
bind_target-lt [] p port h = cc
bind_target-lt (a ∷ []) p port h = cc
bind_target-lt (a ∷ b ∷ []) p port h = cc
bind_target-lt (a ∷ b ∷ d ∷ []) p port h =
    let (q, h0, e0) = bind_ok (relabel (Code.parse a) bind_bad_passcode) _ (p, port) h in
    let (u, h1, e1) = bind_ok (ensure (text_eq b (codes "UDP")) bind_not_udp) _ (p, port) e0 in
    let (n, h2, e2) = bind_ok (context (parse_u16 d) bind_bad_port) _ (p, port) e1 in
    let small = parse_u16-lt d n (context_ok (parse_u16 d) bind_bad_port n h2) in
    omega (arith, ap (λ r. r.1) (ok_inj e2), small)
bind_target-lt (a ∷ b ∷ d ∷ e ∷ args) p port h = cc

module _ {S : Type 0} (rng : Rng S) (P : System → Type 0) (c : Circumstances) (w : World S)
    (leases : List Lent) (relay_tx : Option Sender)
    (stays : (z : System)
      → Step rng (record { network = w.service.network; leases = leases }) z
      → P z)
    (reached : P (record { network = w.service.network; leases = leases })) where
  abbrev pub held : System
  held = record { network = w.service.network; leases = leases }

  -- What holds of the tables and behind each step from them holds after the command, and the rest of
  -- the service is as it was.
  abbrev Lands : Outcome S → Type 0
  Lands o =
      P (after relay_tx held o)
      × (o.world.service ≡ record w.service { network = o.world.service.network })

  abbrev Refines : Result (Option (Outcome S)) → Type 0
  Refines r = (o : Outcome S) → r ≡ ok (some o) → Lands o

  refused-Refines : (e : Error) → Refines (err e)
  refused-Refines e o h = cc

  done-Refines : (o : Outcome S) → Lands o → Refines (ok (some o))
  done-Refines o r o' h = subst Lands (some_inj (ok_inj h)) r

  panic-Refines : Refines panic
  panic-Refines o h = cc

  route-Refines :
      (addr : SocketAddr) (relay : Sender)
      → Refines (one (Service.route addr relay c.channel >>= λ r. ok (proxied w r.0 r.1)))
  route-Refines addr relay = elim (route-RouteEnds addr relay c.channel) [
    | inl (at, e) ↦ rw e (done-Refines _ (reached, refl))
    | inr (inl (at, e)) ↦ rw e (done-Refines _ (reached, refl))
    | inr (inr (n, m, e)) ↦ rw e (refused-Refines no_such_service)
  ]

  proxy-Refines : (args : List Bytes) → Refines (one (proxy c w relay_tx args))
  unfolding proxy
  proxy-Refines args =
      bind_each (λ (r : Result (Outcome S)). Refines (one r)) (proxy_target args) _ panic-Refines
        refused-Refines
        (λ addr found.
          bind_each (λ (r : Result (Outcome S)). Refines (one r)) (context relay_tx proxy_no_relay)
            _ panic-Refines refused-Refines (λ relay there. route-Refines addr relay))

  bind_reply-Refines :
      (relay : Sender) (passcode : Passcode) (port : ℕ)
      → relay_tx ≡ some relay
      → port < 2 ^ 16
      → Refines
          (one (bind_reply w relay_tx (Service.bind w.service c.now passcode port relay c.channel)))
  bind_reply-Refines relay passcode port has_relay small =
      elim (Result-cases (Service.bind w.service c.now passcode port relay c.channel)) [
        | inl ((l, t, s), e) ↦
            let b = bind-IsBoundBy w.service c.now passcode port relay c.channel l t s e in
            let binding =
              stays _ (binds c.now passcode port relay c.channel b.bound small b.binds) in
            let lent : P (record {
              network = b.bound.network;
              leases = record { handler = b.bound.handler; relay = relay_of relay_tx } ∷ leases;
            }) =
              rw (ap relay_of has_relay) binding in
            rw (e, b.lease, b.service) (done-Refines _ (lent, refl))
        | inr (inl (e, refused)) ↦ rw refused (done-Refines _ (reached, refl))
        | inr (inr bad) ↦ rw bad panic-Refines
      ]

  bind-Refines : (args : List Bytes) → Refines (one (bind c w relay_tx args))
  unfolding bind
  bind-Refines args =
      bind_each (λ (r : Result (Outcome S)). Refines (one r)) (context relay_tx bind_no_relay) _
        panic-Refines refused-Refines
        (λ relay there.
          bind_each (λ (r : Result (Outcome S)). Refines (one r)) (bind_target args) _ panic-Refines
            refused-Refines
            (λ t found.
              bind_reply-Refines relay t.0 t.1 (context_ok relay_tx bind_no_relay relay there)
                (bind_target-lt args t.0 t.1 found)))

  newaddr-Refines : (args : List Bytes) → Refines (newaddr rng c w relay_tx args)
  unfolding newaddr
  newaddr-Refines (arg ∷ args) = refused-Refines newaddr_bad_args
  newaddr-Refines [] =
      replied (Service.assign rng c.fuel c.tries c.now c.later w.service w.seed) refl
    where
      replied :
          (r : Result (Option (ℕ × Passcode × ProxyService × S)))
          → Service.assign rng c.fuel c.tries c.now c.later w.service w.seed ≡ r
          → Refines (newaddr_reply relay_tx r)
      replied (ok (some (address, p, s, seed))) e =
          let (st, assigned, same) =
            assign-IsAssignedBy rng c.fuel c.tries c.now c.later w.service w.seed address p s seed
              e in
          rw same (
            done-Refines _ (
              stays _ (assigns c.fuel c.tries c.now c.later w.seed seed address p st assigned),
              refl,
            ))
      replied (ok none) e = λ o h. cc
      replied (err x) e = refused-Refines x
      replied panic e = panic-Refines

  pub handle_command-Stays :
      (raw : Bytes) (o : Outcome S)
      → handle_command rng c w relay_tx raw ≡ ok (some o)
      → P (after relay_tx held o)
        × (o.world.service ≡ record w.service { network = o.world.service.network })
  handle_command-Stays raw =
      handle_command-cases rng c w relay_tx Refines refused-Refines
        (λ payload. done-Refines _ (reached, refl)) proxy-Refines newaddr-Refines bind-Refines raw

module _ {S : Type 0} (rng : Rng S) (c : Circumstances) (w : World S) (leases : List Lent)
    (relay_tx : Option Sender) (raw : Bytes) (o : Outcome S) where
  abbrev now_held : System
  now_held = record { network = w.service.network; leases = leases }

  -- Whatever the tables and the leases on ports are, a command that is answered leaves them, with
  -- the lease that it gives, either as they were or as a single step leaves them in which a client
  -- asks for an address, binds a port to the relay of the command or drops a lease; and it changes
  -- nothing else of the service.
  pub handle_command-steps :
      handle_command rng c w relay_tx raw ≡ ok (some o)
      → ((after relay_tx now_held o ≡ now_held) ⊎ Step rng now_held (after relay_tx now_held o))
        × (o.world.service ≡ record w.service { network = o.world.service.network })
  handle_command-steps h =
      handle_command-Stays rng (λ z. (z ≡ now_held) ⊎ Step rng now_held z) c w leases relay_tx
        (λ z st. inr st) (inl refl) raw o h

  -- If the tables are in a state that clients reach by asking for addresses, binding ports and
  -- dropping leases, then so are the tables and the leases on ports that any command leaves.
  pub handle_command-Reach :
      Reach rng now_held
      → handle_command rng c w relay_tx raw ≡ ok (some o)
      → Reach rng (after relay_tx now_held o)
  handle_command-Reach reached h =
      (handle_command-Stays rng (Reach rng) c w leases relay_tx (λ z st. next reached st) reached
        raw o h).0

-- What holds of a world and the leases held in it, and whatever a command makes of them.
abbrev pub Closed : {S : Type 0} → Rng S → (World S → List Lent → Type 0) → Type 0
Closed {S} rng R =
    (c : Circumstances) (w : World S) (leases : List Lent) (relay : Sender) (raw : Bytes)
    (o : Outcome S)
    → R w leases
    → handle_command rng c w (some relay) raw ≡ ok (some o)
    → R o.world (port_leases relay o.result.new_lease ++ leases)

-- The tables and the leases are among those that clients reach.
abbrev pub Reached : {S : Type 0} → Rng S → World S → List Lent → Type 0
Reached rng w leases = Reach rng (record { network = w.service.network; leases = leases })

pub Reached-Closed : {S : Type 0} (rng : Rng S) → Closed rng (Reached rng)
Reached-Closed rng c w leases relay raw o reached h =
    handle_command-Reach rng c w leases (some relay) raw o reached h
