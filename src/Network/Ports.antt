-- ===== src/Network/Ports.antt =====
-- The ports of one address: how many can be bound, and what a call must show that changes them.
use lwproxy.Base.{
  ℕ, zero, suc, ◌<◌, ◌≤◌, ◌^◌, ◌≡◌, ◌≢◌, true, none, some, arith, ℕ_discrete, Option-cases, ◌⊎◌,
  inl, inr, is_some, ite,
}
use lwproxy.HashMap
use lwproxy.HashMap.{HashMap, get-insert, get-remove}
use lwproxy.HashMap.Entries.{IsUnique, insert-IsUnique, remove-IsUnique}
use lwproxy.HashMap.Counts.{count, count-remove, count-zero}
use lwproxy.Code.{Passcode}
use lwproxy.Translate.{Sender, RouteKey}
use lwproxy.Network.{NetworkState, Assignment, RouteKey-discrete, assignment_of, address_for, route}
use lwproxy.Network.Inv.{Inv, bound_ports, on_address}

-- No more ports can be bound on an address than there are ports.
ports_below :
    (n : ℕ) (m : HashMap RouteKey Sender) (address : ℕ)
    → IsUnique RouteKey-discrete m.entries
    → ((port : ℕ) → n ≤ port → HashMap.get RouteKey-discrete m (address, port) ≡ none)
    → count (on_address address) m ≤ n
ports_below zero m address u h =
    omega (arith, count-zero RouteKey-discrete (on_address address) m nothing)
  where
    nothing :
        (k : RouteKey) → on_address address k ≡ true → HashMap.get RouteKey-discrete m k ≡ none
    nothing (a, port) q = ground (arith, h port)
ports_below (suc n) m address u h =
    elim (Option-cases (HashMap.get RouteKey-discrete m (address, n))) [
      | inl e ↦ omega (arith, ports_below n m address u (λ port q. unbound port q e))
      | inr (relay, e) ↦ ground (
        arith,
        count-remove RouteKey-discrete (on_address address) m (address, n) relay u e,
        ports_below n (HashMap.remove RouteKey-discrete m (address, n)) address
            (remove-IsUnique RouteKey-discrete m (address, n) u) (λ port q. removed port q),
      )
    ]
  where
    unbound :
        (port : ℕ)
        → n ≤ port
        → HashMap.get RouteKey-discrete m (address, n) ≡ none
        → HashMap.get RouteKey-discrete m (address, port) ≡ none
    unbound port q e = elim (ℕ_discrete port n) [ yes p ↦ rw p e | no p ↦ h port (omega arith) ]

    removed :
        (port : ℕ)
        → n ≤ port
        → HashMap.get RouteKey-discrete
            (HashMap.remove RouteKey-discrete m (address, n))
            (address, port)
          ≡ none
    removed port q = elim (ℕ_discrete port n) [
      | yes p ↦ ground (arith, get-remove RouteKey-discrete m (address, n) (address, port))
      | no p ↦ ground (arith, get-remove RouteKey-discrete m (address, n) (address, port), h port)
    ]

-- While the tables agree, at most 65536 ports are bound on an address.
pub bound_ports-le : (st : NetworkState) (address : ℕ) → Inv st → bound_ports st address ≤ 2 ^ 16
bound_ports-le st address v = ports_below (2 ^ 16) st.routes address v.routes_unique λ port h.
    elim (Option-cases (route st (address, port))) [
      | inl e ↦ e
      | inr (relay, e) ↦ absurd (omega (arith, v.routed address port relay e))
    ]

-- A change of the ports of one assigned address.
pub record PortsChange (st : NetworkState) (address : ℕ) (a b : Assignment)
    (routes : HashMap RouteKey Sender) : Type 0 where
  pub assigned : assignment_of st address ≡ some a
  pub same_passcode : b.passcode ≡ a.passcode
  pub unique : IsUnique RouteKey-discrete routes.entries
  pub counted : b.binds ≡ count (on_address address) routes
  pub counted_elsewhere :
      (other : ℕ) → other ≢ address → count (on_address other) routes ≡ bound_ports st other
  pub routed :
      (other port : ℕ) (relay : Sender)
      → HashMap.get RouteKey-discrete routes (other, port) ≡ some relay
      → (route st (other, port) ≡ some relay) ⊎ ((other ≡ address) × (0 < port) × (port < 2 ^ 16))

abbrev pub change_ports : NetworkState → ℕ → Assignment → HashMap RouteKey Sender → NetworkState
change_ports st address b routes = record st {
  by_address = HashMap.insert ℕ_discrete st.by_address address b;
  routes = routes;
}

module _ {st : NetworkState} {address : ℕ} {a b : Assignment} {routes : HashMap RouteKey Sender}
    (v : Inv st) (c : PortsChange st address a b routes) where
  changed :
      (x : ℕ)
      → assignment_of (change_ports st address b routes) x
        ≡ ite (ℕ_discrete x address) (some b) (assignment_of st x)
  changed x = get-insert ℕ_discrete st.by_address address x b

  issued-changed :
      (p : Passcode) (x : ℕ)
      → address_for st p ≡ some x
      → (y : Assignment) × (assignment_of (change_ports st address b routes) x ≡ some y)
        × (y.passcode ≡ p)
  issued-changed p x h =
      let (y, e, q) = v.issued p x h in
      elim (ℕ_discrete x address) [
        | yes here ↦ (b, ground (arith, changed x), ground (arith, c.same_passcode, c.assigned))
        | no away ↦ (y, ground (arith, changed x), q)
      ]

  routed-changed :
      (x port : ℕ) (relay : Sender)
      → HashMap.get RouteKey-discrete routes (x, port) ≡ some relay
      → (is_some (assignment_of (change_ports st address b routes) x) ≡ true)
        × (0 < port)
        × (port < 2 ^ 16)
  routed-changed x port relay h = elim (c.routed x port relay h) [
    | inl before ↦ ground (arith, changed x, v.routed x port relay before)
    | inr new ↦ ground (arith, changed x)
  ]

  pub change_ports-Inv : Inv (change_ports st address b routes)
  change_ports-Inv = record {
    addresses_unique = insert-IsUnique ℕ_discrete st.by_address address b v.addresses_unique;
    routes_unique = c.unique;
    issued = issued-changed;
    held = λ x y h.
        ground (arith, changed x, c.same_passcode, v.held address a c.assigned, v.held x y);
    counted = λ x y h. ground (arith, changed x, c.counted, c.counted_elsewhere x, v.counted x y);
    routed = routed-changed;
    assignable =
        λ x y h. ground (arith, changed x, v.assignable address a c.assigned, v.assignable x y);
  }
