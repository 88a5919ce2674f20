-- ===== src/Network/Unbind.antt =====
-- `unbind`: what is released, and that it undoes `bind`.
use lwproxy.Base.{
  ℕ, ◌+◌, ◌-◌, ◌<◌, ◌^◌, ◌≡◌, ◌≢◌, refl, ◌∙◌, none, some, arith, ℕ_discrete, Option-cases, inl, inr,
  is_some, ite,
}
use lwproxy.Result.{ok}
use lwproxy.HashMap
use lwproxy.HashMap.{HashMap, get-insert, get-remove}
use lwproxy.HashMap.Entries.{remove-IsUnique}
use lwproxy.HashMap.Counts.{count-remove}
use lwproxy.Code.{Passcode}
use lwproxy.Translate.{Sender, RouteKey}
use lwproxy.Network.{
  NetworkState, Assignment, RouteKey-discrete, assignment_of, route, Bound, bind, unbind,
}
use lwproxy.Network.Inv.{Inv, on_address}
use lwproxy.Network.Ports.{PortsChange, change_ports, change_ports-Inv}
use lwproxy.Network.Bind.{IsBound, bind-IsBound}

-- The state before and after a port is released.
pub record IsReleased (st : NetworkState) (address port : ℕ) (after : NetworkState) : Type 0 where
  pub consistent : Inv after
  pub routes :
      (k : RouteKey) → route after k ≡ ite (RouteKey-discrete k (address, port)) none (route st k)
  pub passcodes : after.by_passcode ≡ st.by_passcode
  pub others : (x : ℕ) → x ≢ address → assignment_of after x ≡ assignment_of st x
  pub stays_assigned : is_some (assignment_of after address) ≡ is_some (assignment_of st address)

module _ (st : NetworkState) (v : Inv st) (now address port : ℕ) where
  abbrev one_less : Assignment → Assignment
  one_less a = record { passcode = a.passcode; binds = a.binds - 1; touched = now }

  abbrev released : Assignment → NetworkState
  released a =
      change_ports st address (one_less a)
        (HashMap.remove RouteKey-discrete st.routes (address, port))

  unbind_bound :
      (a : Assignment) (relay : Sender)
      → assignment_of st address ≡ some a
      → route st (address, port) ≡ some relay
      → unbind st now (address, port) ≡ released a
  unfolding unbind
  unbind_bound a relay e f = ground arith

  -- A key that is not bound: nothing happens.
  pub unbind_unbound : route st (address, port) ≡ none → unbind st now (address, port) ≡ st
  unfolding unbind
  unbind_unbound f = ground arith

  change :
      (a : Assignment) (relay : Sender)
      → assignment_of st address ≡ some a
      → route st (address, port) ≡ some relay
      → PortsChange st address a
          (one_less a)
          (HashMap.remove RouteKey-discrete st.routes (address, port))
  change a relay e f = record {
    assigned = e;
    same_passcode = refl;
    unique = remove-IsUnique RouteKey-discrete st.routes (address, port) v.routes_unique;
    counted = ground (
      arith,
      count-remove RouteKey-discrete (on_address address) st.routes (address, port) relay
          v.routes_unique f,
      v.counted address a e,
    );
    counted_elsewhere = λ x ne. ground (
      arith,
      count-remove RouteKey-discrete (on_address x) st.routes (address, port) relay v.routes_unique
          f,
    );
    routed = λ x q r h.
        inl (ground (arith, get-remove RouteKey-discrete st.routes (address, port) (x, q)));
  }

  assigned_address :
      (relay : Sender)
      → route st (address, port) ≡ some relay
      → (a : Assignment) × (assignment_of st address ≡ some a)
  assigned_address relay f = elim (Option-cases (assignment_of st address)) [
    | inl e ↦ cc (e, (v.routed address port relay f).0)
    | inr found ↦ found
  ]

  -- While the tables agree, `unbind` of any key removes exactly the route of that key; the tables
  -- agree, and passcodes, the assignments of other addresses and whether the address is assigned
  -- are as before.
  pub unbind-IsReleased : IsReleased st address port (unbind st now (address, port))
  unbind-IsReleased = elim (Option-cases (route st (address, port))) [
    | inl f ↦ rw (unbind_unbound f) (record {
      consistent = v;
      routes = λ k. elim (RouteKey-discrete k (address, port)) [
        | yes e ↦ ground arith
        | no ne ↦ ground arith
      ];
      passcodes = refl;
      others = λ x ne. refl;
      stays_assigned = refl;
    })
    | inr (relay, f) ↦
        let (a, e) = assigned_address relay f in
        rw (unbind_bound a relay e f) (record {
          consistent = change_ports-Inv v (change a relay e f);
          routes = λ k. get-remove RouteKey-discrete st.routes (address, port) k;
          passcodes = refl;
          others =
              λ x ne. ground (arith, get-insert ℕ_discrete st.by_address address x (one_less a));
          stays_assigned =
              ground (arith, get-insert ℕ_discrete st.by_address address address (one_less a));
        })
  ]

-- While the tables agree, after `bind` of a 16-bit port succeeded, dropping the lease brings back
-- every route and every passcode, and every assignment up to the time of its last use.
pub unbind-bind :
    (st : NetworkState) (now later : ℕ) (p : Passcode) (port : ℕ) (relay egress : ℕ) (b : Bound)
    → Inv st
    → port < 2 ^ 16
    → bind st now p port relay egress ≡ ok b
    → let after = unbind b.network later b.handler.key in
      ((k : RouteKey) → route after k ≡ route st k)
      × (after.by_passcode ≡ st.by_passcode)
      × ((x : ℕ) (a : Assignment)
          → assignment_of st x ≡ some a
          → (t : ℕ) × (assignment_of after x ≡ some (record a { touched = t })))
unbind-bind st now later p port relay egress b v small h =
    let (address, w) = bind-IsBound st v now p port relay egress b small h in
    let done = unbind-IsReleased b.network w.consistent later address port in
    rw w.key (routes_back address w done, done.passcodes ∙ w.passcodes, assignment_back address w)
  where
    routes_back :
        (address : ℕ)
        → IsBound st now p port relay egress address b
        → IsReleased b.network address port (unbind b.network later (address, port))
        → (k : RouteKey) → route (unbind b.network later (address, port)) k ≡ route st k
    routes_back address w done k = elim (RouteKey-discrete k (address, port)) [
      | yes e ↦ rw e (ground (arith, done.routes (address, port), w.was_free))
      | no ne ↦ ground (arith, done.routes k, w.routes k)
    ]

    assignment_back :
        (address : ℕ)
        → IsBound st now p port relay egress address b
        → (x : ℕ) (a : Assignment) → assignment_of st x ≡ some a
        → (t : ℕ) × (assignment_of (unbind b.network later (address, port)) x
            ≡ some (record a { touched = t }))
    assignment_back address w x a e = elim (ℕ_discrete x address) [
      | yes here ↦
          let more : Assignment = record {
            passcode = a.passcode;
            binds = a.binds + 1;
            touched = now;
          } in
          let e' : assignment_of b.network address ≡ some more = w.assignment a (rw (← here) e) in
          let bound_here : route b.network (address, port) ≡ some relay =
            ground (arith, w.routes (address, port)) in
          (
            later,
            rw
                (
                  here,
                  unbind_bound b.network w.consistent later address port more relay e' bound_here,
                )
                (ground (
                  arith,
                  get-insert ℕ_discrete b.network.by_address address address
                      (one_less b.network w.consistent later address port more),
                )),
          )
      | no away ↦
          let done = unbind-IsReleased b.network w.consistent later address port in
          (a.touched, ground (arith, done.others x away, w.others x away))
    ]
