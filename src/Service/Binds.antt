-- ===== src/Service/Binds.antt =====
-- What the service's `assign` and `bind` owe to the network, whatever the tables are.
use lwproxy.Base.{ℕ, some_inj, none, some, ◌≡◌, ◌≢◌, refl, sym, arith, not, ap, ◌==◌, Option}
use mathlib.Core.Path.{subst}
use lwproxy.Result.{
  Result, ok, err, panic, ensure, context, bind_ok, bind_panic, context-ne-panic, ensure-ne-panic,
  ok_inj, bind_port_zero, unknown_passcode, port_already_bound, assignment_missing,
}
use lwproxy.HashMap
use lwproxy.Code.{Rng, Passcode}
use lwproxy.Network.Assign.{assign-ne-panic}
use lwproxy.Translate.{Sender, translator}
use lwproxy.Network
use lwproxy.Network.{NetworkState, Bound, RouteKey-discrete, address_for, assignment_of}
use lwproxy.Lease.{Lease, port_lease}
use lwproxy.Service.{ProxyService, Started, translation, bind, assign, with_network}

module _ (st : NetworkState) (now : ℕ) (p : Passcode) (port : ℕ) (relay egress : Sender) where
  pub network_bind-ne-panic : Network.bind st now p port relay egress ≢ panic
  unfolding Network.bind
  network_bind-ne-panic = bind_panic _ _ (ensure-ne-panic (not (port == 0)) bind_port_zero) (λ u.
      bind_panic _ _ (context-ne-panic (address_for st p) unknown_passcode) (λ address.
        bind_panic _ _
          (ensure-ne-panic (not (HashMap.contains_key RouteKey-discrete st.routes (address, port)))
            port_already_bound)
          (λ v.
            bind_panic _ _ (context-ne-panic (assignment_of st address) assignment_missing)
              (λ a. ground arith))))

  abbrev pub IsTied : Bound → Type 0
  IsTied b =
      (b.task.bound ≡ b.handler.key)
      × (b.task.relay ≡ relay)
      × (b.task.egress ≡ egress)
      × (b.handler.egress ≡ egress)

  pub bind-IsTied : (b : Bound) → Network.bind st now p port relay egress ≡ ok b → IsTied b
  unfolding Network.bind translator
  bind-IsTied b e =
      let (u, h0, e0) = bind_ok (ensure (not (port == 0)) bind_port_zero) _ b e in
      let (address, h1, e1) = bind_ok (context (address_for st p) unknown_passcode) _ b e0 in
      let (v, h2, e2) =
        bind_ok
          (ensure (not (HashMap.contains_key RouteKey-discrete st.routes (address, port)))
            port_already_bound)
          _ b e1 in
      let (a, h3, e3) = bind_ok (context (assignment_of st address) assignment_missing) _ b e2 in
      subst IsTied (ok_inj e3) (refl, refl, refl, refl)

-- A bind of the service is one of its network.
pub record IsBoundBy (s : ProxyService) (now : ℕ) (p : Passcode) (port : ℕ) (relay egress : Sender)
    (l : Lease) (t : Started) (s' : ProxyService) : Type 0 where
  pub bound : Bound
  pub binds : Network.bind s.network now p port relay egress ≡ ok bound
  pub lease : l ≡ port_lease bound.handler
  pub task : t ≡ translation bound.task
  pub service : s' ≡ record s { network = bound.network }

module _ (s : ProxyService) (now : ℕ) (p : Passcode) (port : ℕ) (relay egress : Sender) where
  pub service_bind-ne-panic : bind s now p port relay egress ≢ panic
  unfolding bind
  service_bind-ne-panic =
      bind_panic _ _ (network_bind-ne-panic s.network now p port relay egress) (λ b. ground arith)

  pub bind-IsBoundBy :
      (l : Lease) (t : Started) (s' : ProxyService)
      → bind s now p port relay egress ≡ ok (l, t, s')
      → IsBoundBy s now p port relay egress l t s'
  unfolding bind
  bind-IsBoundBy l t s' e =
      let (b, h, e') = bind_ok (Network.bind s.network now p port relay egress) _ (l, t, s') e in
      let same = ok_inj e' in
      record {
        bound = b;
        binds = h;
        lease = sym (ap (λ r. r.0) same);
        task = sym (ap (λ r. r.1) same);
        service = sym (ap (λ r. r.2) same);
      }

module _ {S : Type 0} (rng : Rng S) (fuel tries now later : ℕ) (s : ProxyService) (seed : S) where
  with_network-ne-panic :
      (r : Result (Option (ℕ × Passcode × NetworkState × S))) → r ≢ panic → with_network s r ≢ panic
  with_network-ne-panic (ok (some x)) n = ground arith
  with_network-ne-panic (ok none) n = ground arith
  with_network-ne-panic (err e) n = ground arith
  with_network-ne-panic panic n = absurd (n refl)

  pub service_assign-ne-panic : assign rng fuel tries now later s seed ≢ panic
  unfolding assign
  service_assign-ne-panic =
      with_network-ne-panic _ (assign-ne-panic rng fuel tries now later s.network seed)

  with_network-ok :
      (r : Result (Option (ℕ × Passcode × NetworkState × S))) (address : ℕ) (p : Passcode)
      (s' : ProxyService) (seed' : S)
      → with_network s r ≡ ok (some (address, p, s', seed'))
      → (st : NetworkState) × (r ≡ ok (some (address, p, st, seed')))
        × (s' ≡ record s { network = st })
  with_network-ok (ok (some (a, q, st, t))) address p s' seed' e =
      let same = some_inj (ok_inj e) in
      (st, ap (λ r. ok (some (r.0, r.1, st, r.3))) same, sym (ap (λ r. r.2) same))
  with_network-ok (ok none) address p s' seed' e = cc
  with_network-ok (err x) address p s' seed' e = cc
  with_network-ok panic address p s' seed' e = cc

  pub assign-IsAssignedBy :
      (address : ℕ) (p : Passcode) (s' : ProxyService) (seed' : S)
      → assign rng fuel tries now later s seed ≡ ok (some (address, p, s', seed'))
      → (st : NetworkState) × (Network.assign rng fuel tries now later s.network seed
          ≡ ok (some (address, p, st, seed')))
        × (s' ≡ record s { network = st })
  unfolding assign
  assign-IsAssignedBy address p s' seed' e = with_network-ok _ address p s' seed' e
