-- ===== src/Network/Bind.antt =====
-- `bind`: each of its branches, and what it leaves behind.
use mathlib.Core.Path.{subst}
use lwproxy.Base.{
  ℕ, ◌+◌, ◌%◌, ◌<◌, ◌^◌, ◌≡◌, ◌≢◌, refl, ap, none, some, arith, ℕ_discrete, Option-cases, inl, inr,
  ite,
}
use lwproxy.Result.{Result, ok, err, bind_port_zero, unknown_passcode, port_already_bound}
use lwproxy.HashMap
use lwproxy.HashMap.{HashMap, get-insert, get-remove}
use lwproxy.HashMap.Entries.{insert-IsUnique}
use lwproxy.HashMap.Counts.{count-insert}
use lwproxy.Code.{Passcode}
use lwproxy.Translate.{Sender, RouteKey, translator}
use lwproxy.Network.{
  NetworkState, Assignment, RouteKey-discrete, assignment_of, address_for, route, Bound, bind,
}
use lwproxy.Network.Inv.{Inv, on_address}
use lwproxy.Network.Ports.{PortsChange, bound_ports-le, change_ports, change_ports-Inv}

-- A success: the port was free on the address of the passcode, and now leads to the relay. Nothing
-- else has changed, but the assignment's count and time.
pub record IsBound (st : NetworkState) (now : ℕ) (p : Passcode) (port : ℕ) (relay egress : Sender)
    (address : ℕ) (b : Bound) : Type 0 where
  pub consistent : Inv b.network
  pub owned : address_for st p ≡ some address
  pub was_free : route st (address, port) ≡ none
  pub key : b.handler.key ≡ (address, port)
  pub egress_kept : b.handler.egress ≡ egress
  pub task : b.task ≡ translator (address, port) egress relay
  pub routes :
      (k : RouteKey)
      → route b.network k ≡ ite (RouteKey-discrete k (address, port)) (some relay) (route st k)
  pub passcodes : b.network.by_passcode ≡ st.by_passcode
  pub assignment :
      (a : Assignment)
      → assignment_of st address ≡ some a
      → assignment_of b.network address
        ≡ some (record { passcode = a.passcode; binds = a.binds + 1; touched = now })
  pub others : (x : ℕ) → x ≢ address → assignment_of b.network x ≡ assignment_of st x

-- How a call ends.
pub data BindEnds (st : NetworkState) (now : ℕ) (p : Passcode) (port : ℕ) (relay egress : Sender)
    (r : Result Bound) : Type 0 where
  refuses_zero : port ≡ 0 → r ≡ err bind_port_zero → BindEnds st now p port relay egress r
  refuses_unknown :
      port ≢ 0
      → address_for st p ≡ none
      → r ≡ err unknown_passcode
      → BindEnds st now p port relay egress r
  refuses_bound :
      (address : ℕ) (other : Sender)
      → port ≢ 0
      → address_for st p ≡ some address
      → route st (address, port) ≡ some other
      → r ≡ err port_already_bound
      → BindEnds st now p port relay egress r
  binds :
      (address : ℕ) (b : Bound)
      → port ≢ 0
      → r ≡ ok b
      → IsBound st now p port relay egress address b
      → BindEnds st now p port relay egress r

module _ (st : NetworkState) (v : Inv st) (now : ℕ) (p : Passcode) (port : ℕ)
    (relay egress : Sender) where
  abbrev one_more : Assignment → Assignment
  one_more a = record { passcode = a.passcode; binds = (a.binds + 1) % 2 ^ 64; touched = now }

  abbrev bound_network : ℕ → Assignment → NetworkState
  bound_network address a =
      change_ports st address (one_more a)
        (HashMap.insert RouteKey-discrete st.routes (address, port) relay)

  abbrev bound : ℕ → Assignment → Bound
  bound address a = record {
    network = bound_network address a;
    handler = record { key = (address, port); egress = egress };
    task = translator (address, port) egress relay;
  }

  change :
      (address : ℕ) (a : Assignment)
      → port ≢ 0
      → port < 2 ^ 16
      → assignment_of st address ≡ some a
      → route st (address, port) ≡ none
      → PortsChange st address a
          (one_more a)
          (HashMap.insert RouteKey-discrete st.routes (address, port) relay)
  change address a pos small e free = record {
    assigned = e;
    same_passcode = refl;
    unique = insert-IsUnique RouteKey-discrete st.routes (address, port) relay v.routes_unique;
    counted = ground (
      arith,
      count-insert RouteKey-discrete (on_address address) st.routes (address, port) relay free,
      v.counted address a e,
      bound_ports-le st address v,
    );
    counted_elsewhere = λ x ne.
        ground (
          arith,
          count-insert RouteKey-discrete (on_address x) st.routes (address, port) relay free,
        );
    routed = λ x q r h. elim (RouteKey-discrete (x, q) (address, port)) [
      | yes same ↦
          let e1 : x ≡ address = ap (λ (k : RouteKey). k.0) same in
          let e2 : q ≡ port = ap (λ (k : RouteKey). k.1) same in inr (e1, omega arith, omega arith)
      | no other ↦
          inl (ground (arith, get-insert RouteKey-discrete st.routes (address, port) (x, q) relay))
    ];
  }

  bound-IsBound :
      (address : ℕ) (a : Assignment)
      → port ≢ 0
      → port < 2 ^ 16
      → address_for st p ≡ some address
      → assignment_of st address ≡ some a
      → route st (address, port) ≡ none
      → IsBound st now p port relay egress address (bound address a)
  bound-IsBound address a pos small owned e free = record {
    consistent = change_ports-Inv v (change address a pos small e free);
    owned = owned;
    was_free = free;
    key = refl;
    egress_kept = refl;
    task = refl;
    routes = λ k. get-insert RouteKey-discrete st.routes (address, port) k relay;
    passcodes = refl;
    assignment = λ x h. ground (
      arith,
      get-insert ℕ_discrete st.by_address address address (one_more a),
      v.counted address a e,
      bound_ports-le st address v,
    );
    others = λ x ne. ground (arith, get-insert ℕ_discrete st.by_address address x (one_more a));
  }

  -- While the tables agree and for a 16-bit port, `bind` refuses port 0, else a passcode that leads
  -- nowhere, else a port that is bound already, and otherwise binds the port on the address of the
  -- passcode: its route leads to the relay, the lease and the task are for that port, the
  -- assignment counts one bind more and has the new time, the tables agree, and other routes,
  -- passcodes and assignments are unchanged. A missing assignment does not occur.
  pub bind-BindEnds :
      port < 2 ^ 16 → BindEnds st now p port relay egress (bind st now p port relay egress)
  bind-BindEnds small = elim (ℕ_discrete port 0) [
    | yes z ↦ refuses_zero z (unfold bind in ground arith)
    | no pos ↦ elim (Option-cases (address_for st p)) [
      | inl e ↦ refuses_unknown pos e (unfold bind in ground arith)
      | inr (address, e) ↦ elim (Option-cases (route st (address, port))) [
        | inr (other, f) ↦ refuses_bound address other pos e f (unfold bind in ground arith)
        | inl f ↦
            let (a, g, q) = v.issued p address e in
            binds address (bound address a) pos (unfold bind in ground arith)
              (bound-IsBound address a pos small e g f)
      ]
    ]
  ]

  bound_of :
      {r : Result Bound} {b : Bound}
      → BindEnds st now p port relay egress r
      → r ≡ ok b
      → (address : ℕ) × IsBound st now p port relay egress address b
  bound_of (refuses_zero z e) h = cc (e, h)
  bound_of (refuses_unknown pos f e) h = cc (e, h)
  bound_of (refuses_bound address other pos f g e) h = cc (e, h)
  bound_of {b} (binds address c pos e w) h =
      let same : c ≡ b = cc in (address, subst (IsBound st now p port relay egress address) same w)

  pub bind-IsBound :
      (b : Bound)
      → port < 2 ^ 16
      → bind st now p port relay egress ≡ ok b
      → (address : ℕ) × IsBound st now p port relay egress address b
  bind-IsBound b small h = bound_of (bind-BindEnds small) h
