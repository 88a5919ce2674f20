-- ===== src/Commands/Ends.antt =====
-- src/service/commands.rs: how a command ends: refused, answered with the relay left in place, or
-- with a lease that took it.
use lwproxy.Base.{
  ℕ, ◌≡◌, ◌≢◌, refl, Bool, true, false, List, [], ◌∷◌, Option, none, some, Bytes, inl, inr, arith,
}
use lwproxy.Service.Routes.{route-RouteEnds}
use lwproxy.Service.Binds.{
  service_assign-ne-panic, bind-IsBoundBy, service_bind-ne-panic, bind-IsTied,
}
use lwproxy.IpText.{parse_ip}
use lwproxy.Text.{parse_u16, text_eq}
use lwproxy.Code
use lwproxy.Result.{
  context_ok, newaddr_bad_args, bind_panic, bind_both, context-ne-panic, ensure-ne-panic, relabel,
  proxy_bad_address, proxy_bad_port, proxy_family_mismatch, bind_bad_passcode, bind_not_udp,
  bind_bad_port, Result, ok, err, panic, Error, ◌>>=◌, context, proxy_no_relay, bind_no_relay,
  Result-cases, no_such_service,
}
use lwproxy.Net.{SocketAddr, is_ipv6}
use lwproxy.Code.{Rng, Passcode, codes}
use lwproxy.Translate.{Sender}
use lwproxy.Lease.{Lease, port_lease, dns_lease, connect_lease}
use lwproxy.Service
use lwproxy.Service.{Started, translation, resolver, connecting, ProxyService}
use lwproxy.Commands.{
  proxied, bind_reply, newaddr_reply, want_ipv6, check_transport, bool_eq, Circumstances, World,
  Outcome, proxy, proxy_target, bind, bind_target, newaddr, handle_command,
}
use lwproxy.Commands.Cases.{one, handle_command-cases}

-- The task behind a lease writes to the relay, and reads the channel that the lease fills.
abbrev pub Serves : Started → Lease → Sender → Sender → Type 0
Serves (translation t) (port_lease h) relay channel =
    (t.bound ≡ h.key) × (t.relay ≡ relay) × (t.egress ≡ channel) × (h.egress ≡ channel)
Serves (resolver r ch) (dns_lease l) relay channel =
    (r ≡ relay) × (ch ≡ channel) × (l.transmit ≡ channel)
Serves (connecting r ch) (connect_lease l) relay channel =
    (r ≡ relay) × (ch ≡ channel) × (l.transmit ≡ channel)
Serves _ _ relay channel = ⊥

abbrev pub is_port_lease : Lease → Bool
is_port_lease (port_lease h) = true
is_port_lease (dns_lease l) = false
is_port_lease (connect_lease l) = false

pub data CommandEnds {S : Type 0} (c : Circumstances) (relay_tx : Option Sender)
    (r : Result (Option (Outcome S))) : Type 0 where
  refuses : (e : Error) → r ≡ err e → CommandEnds c relay_tx r
  tires : r ≡ ok none → CommandEnds c relay_tx r
  answers :
      (o : Outcome S)
      → r ≡ ok (some o)
      → o.result.new_lease ≡ none
      → o.result.relay_udp ≡ false
      → o.relay ≡ relay_tx
      → o.started ≡ none
      → CommandEnds c relay_tx r
  leases :
      (o : Outcome S) (l : Lease) (relay : Sender) (t : Started)
      → r ≡ ok (some o)
      → relay_tx ≡ some relay
      → o.result.new_lease ≡ some l
      → o.result.relay_udp ≡ is_port_lease l
      → o.relay ≡ none
      → o.started ≡ some t
      → Serves t l relay c.channel
      → CommandEnds c relay_tx r

proxy_target-ne-panic : (args : List Bytes) → proxy_target args ≢ panic
unfolding proxy_target
proxy_target-ne-panic [] = ground arith
proxy_target-ne-panic (a ∷ []) = ground arith
proxy_target-ne-panic (a ∷ b ∷ []) = ground arith
proxy_target-ne-panic (a ∷ b ∷ d ∷ []) = ground arith
proxy_target-ne-panic (a ∷ b ∷ d ∷ e ∷ []) = bind_panic _ _ (want-ne-panic) (λ v.
    bind_panic _ _ (transport-ne-panic) (λ u.
      bind_panic _ _ (context-ne-panic (parse_ip d) proxy_bad_address) (λ ip.
        bind_panic _ _ (ensure-ne-panic (bool_eq (is_ipv6 ip) v) proxy_family_mismatch) (λ u.
          bind_panic _ _ (context-ne-panic (parse_u16 e) proxy_bad_port) (λ port. ground arith)))))
  where
    want-ne-panic : want_ipv6 a ≢ panic
    want-ne-panic = ground arith

    transport-ne-panic : check_transport b ≢ panic
    transport-ne-panic = ground arith
proxy_target-ne-panic (a ∷ b ∷ d ∷ e ∷ f ∷ args) = ground arith

bind_target-ne-panic : (args : List Bytes) → bind_target args ≢ panic
unfolding bind_target Code.parse
bind_target-ne-panic [] = ground arith
bind_target-ne-panic (a ∷ []) = ground arith
bind_target-ne-panic (a ∷ b ∷ []) = ground arith
bind_target-ne-panic (a ∷ b ∷ d ∷ []) = bind_panic _ _ (parsed-ne-panic) (λ p.
    bind_panic _ _ (ensure-ne-panic (text_eq b (codes "UDP")) bind_not_udp)
      (λ u. bind_panic _ _ (context-ne-panic (parse_u16 d) bind_bad_port) (λ port. ground arith)))
  where
    parsed-ne-panic : relabel (Code.parse a) bind_bad_passcode ≢ panic
    parsed-ne-panic = ground arith
bind_target-ne-panic (a ∷ b ∷ d ∷ e ∷ args) = ground arith

module _ {S : Type 0} (c : Circumstances) (w : World S) where
  route-CommandEnds :
      (addr : SocketAddr) (relay_tx : Option Sender) (relay : Sender)
      → relay_tx ≡ some relay
      → CommandEnds c relay_tx
          (one (Service.route addr relay c.channel >>= λ r. ok (proxied w r.0 r.1)))
  route-CommandEnds addr relay_tx relay r = elim (route-RouteEnds addr relay c.channel) [
    | inl (at, e) ↦ rw e (leases _ _ relay _ refl r refl refl refl refl (refl, refl, refl))
    | inr (inl (at, e)) ↦ rw e (leases _ _ relay _ refl r refl refl refl refl (refl, refl, refl))
    | inr (inr (n, m, e)) ↦ rw e (refuses no_such_service refl)
  ]

  proxy-CommandEnds :
      (relay_tx : Option Sender) (args : List Bytes)
      → CommandEnds c relay_tx (one (proxy c w relay_tx args))
  unfolding proxy
  proxy-CommandEnds relay_tx args =
      bind_both (λ (r : Result (Outcome S)). CommandEnds c relay_tx (one r)) (proxy_target args) _
        (proxy_target-ne-panic args) (λ e. refuses e refl)
        (λ addr found.
          bind_both (λ (r : Result (Outcome S)). CommandEnds c relay_tx (one r))
            (context relay_tx proxy_no_relay) _ (context-ne-panic relay_tx proxy_no_relay)
            (λ e. refuses e refl)
            (λ relay there.
              route-CommandEnds addr relay_tx relay
                (context_ok relay_tx proxy_no_relay relay there)))

  bind_reply-CommandEnds :
      (relay_tx : Option Sender) (relay : Sender) (passcode : Passcode) (port : ℕ)
      → relay_tx ≡ some relay
      → CommandEnds c relay_tx
          (one (bind_reply w relay_tx (Service.bind w.service c.now passcode port relay c.channel)))
  bind_reply-CommandEnds relay_tx relay passcode port r =
      elim (Result-cases (Service.bind w.service c.now passcode port relay c.channel)) [
        | inl ((l, t, s), e) ↦
            let b = bind-IsBoundBy w.service c.now passcode port relay c.channel l t s e in
            let tied =
              bind-IsTied w.service.network c.now passcode port relay c.channel b.bound b.binds in
            rw (e, b.lease, b.task) (leases _ _ relay _ refl r refl refl refl refl tied)
        | inr (inl (e, refused)) ↦ rw refused (answers _ refl refl refl refl refl)
        | inr (inr bad) ↦
            absurd (service_bind-ne-panic w.service c.now passcode port relay c.channel bad)
      ]

  bind-CommandEnds :
      (relay_tx : Option Sender) (args : List Bytes)
      → CommandEnds c relay_tx (one (bind c w relay_tx args))
  unfolding bind
  bind-CommandEnds relay_tx args =
      bind_both (λ (r : Result (Outcome S)). CommandEnds c relay_tx (one r))
        (context relay_tx bind_no_relay) _ (context-ne-panic relay_tx bind_no_relay)
        (λ e. refuses e refl)
        (λ relay there.
          bind_both (λ (r : Result (Outcome S)). CommandEnds c relay_tx (one r)) (bind_target args)
            _ (bind_target-ne-panic args) (λ e. refuses e refl)
            (λ t found.
              bind_reply-CommandEnds relay_tx relay t.0 t.1
                (context_ok relay_tx bind_no_relay relay there)))

module _ {S : Type 0} (rng : Rng S) (c : Circumstances) (w : World S) where
  newaddr_reply-CommandEnds :
      (relay_tx : Option Sender) (r : Result (Option (ℕ × Passcode × ProxyService × S)))
      → r ≢ panic
      → CommandEnds c relay_tx (newaddr_reply relay_tx r)
  newaddr_reply-CommandEnds relay_tx (ok (some (address, p, s, seed))) n =
      answers _ refl refl refl refl refl
  newaddr_reply-CommandEnds relay_tx (ok none) n = tires refl
  newaddr_reply-CommandEnds relay_tx (err e) n = refuses e refl
  newaddr_reply-CommandEnds relay_tx panic n = absurd (n refl)

  newaddr-CommandEnds :
      (relay_tx : Option Sender) (args : List Bytes)
      → CommandEnds c relay_tx (newaddr rng c w relay_tx args)
  unfolding newaddr
  newaddr-CommandEnds relay_tx (arg ∷ args) = refuses newaddr_bad_args refl
  newaddr-CommandEnds relay_tx [] =
      newaddr_reply-CommandEnds relay_tx
        (Service.assign rng c.fuel c.tries c.now c.later w.service w.seed)
        (service_assign-ne-panic rng c.fuel c.tries c.now c.later w.service w.seed)

  -- A command ends in one of four ways, whatever its bytes and the tables are, and never panics: it
  -- is refused; the fuel of `assign` is out; it is answered without a lease, and the relay is left
  -- in place for the next command; or it gives a lease, datagrams are expected exactly on a lease
  -- of a bound port, the relay is gone from the client, and the task that was started writes to
  -- that relay and reads the channel that the lease fills.
  pub handle_command-CommandEnds :
      (relay_tx : Option Sender) (raw : Bytes)
      → CommandEnds c relay_tx (handle_command rng c w relay_tx raw)
  handle_command-CommandEnds relay_tx raw =
      handle_command-cases rng c w relay_tx (CommandEnds c relay_tx) (λ e. refuses e refl)
        (λ payload. answers _ refl refl refl refl refl) (proxy-CommandEnds c w relay_tx)
        (newaddr-CommandEnds relay_tx) (bind-CommandEnds c w relay_tx) raw
