-- ===== src/Network/Alike.antt =====
-- src/service/net/network.rs: the operations on tables that answer alike.
use lwproxy.Network.Views.{Alike, expire-Alike}
use lwproxy.Network.Inv.{Inv}
use lwproxy.Network.Assign.{assign_loop_round}
use lwproxy.Code.Passcodes.{parse-new}
use lwproxy.Code.{Rng, random_address}
use lwproxy.Base.{
  ℕ, zero, suc, ◌≡◌, refl, sym, ◌∙◌, ap, true, false, Option, none, some, ℕ_discrete, arith,
  Option-cases, Bool-cases, inl, inr, ite, Bool, ◌==◌, Bytes,
}
use lwproxy.Result.{
  Result, ok, err, Error, bind_port_zero, unknown_passcode, port_already_bound, assignment_missing,
}
use lwproxy.Wire.{Buf}
use lwproxy.HashMap
use lwproxy.HashMap.{HashMap, get-insert, get-remove}
use lwproxy.Code.{Passcode, Passcode-discrete}
use lwproxy.Translate.{RouteKey, Sender}
use lwproxy.Network.{
  NetworkState, RouteKey-discrete, assignment_of, address_for, route, record_assignment,
  assign_loop, assign, is_taken, Bound, BindHandler, bind, unbind, send, deliver,
}

module _ {ℓ} {K V : Type ℓ} (d : Discrete K) (m m' : HashMap K V) where
  pub insert_alike :
      (k : K) (x : V)
      → ((j : K) → HashMap.get d m j ≡ HashMap.get d m' j)
      → (j : K)
      → HashMap.get d (HashMap.insert d m k x) j ≡ HashMap.get d (HashMap.insert d m' k x) j
  insert_alike k x h j =
      get-insert d m k j x ∙ ap (ite (d j k) (some x)) (h j) ∙ sym (get-insert d m' k j x)

  pub remove_alike :
      (k : K)
      → ((j : K) → HashMap.get d m j ≡ HashMap.get d m' j)
      → (j : K) → HashMap.get d (HashMap.remove d m k) j ≡ HashMap.get d (HashMap.remove d m' k) j
  remove_alike k h j = get-remove d m k j ∙ ap (ite (d j k) none) (h j) ∙ sym (get-remove d m' k j)

pub record_assignment-Alike :
    (now address : ℕ) (p : Passcode) (st st' : NetworkState)
    → Alike st st'
    → Alike (record_assignment now address p st) (record_assignment now address p st')
unfolding record_assignment
record_assignment-Alike now address p st st' h = record {
  addresses = insert_alike ℕ_discrete st.by_address st'.by_address address _ h.addresses;
  passcodes = insert_alike Passcode-discrete st.by_passcode st'.by_passcode p address h.passcodes;
  ports = h.ports;
}

pub unbind-Alike :
    (now : ℕ) (key : RouteKey) (st st' : NetworkState)
    → Alike st st'
    → Alike (unbind st now key) (unbind st' now key)
unfolding unbind
unbind-Alike now key st st' h =
    let routes = remove_alike RouteKey-discrete st.routes st'.routes key h.ports in
    elim (Option-cases (route st key)) [
      | inl e ↦ let e' : route st' key ≡ none = sym (h.ports key) ∙ e in rw (unbind, e, e') h
      | inr (relay, e) ↦
          let e' : route st' key ≡ some relay = sym (h.ports key) ∙ e in
          elim (Option-cases (assignment_of st key.0)) [
            | inl f ↦
                let f' : assignment_of st' key.0 ≡ none = sym (h.addresses key.0) ∙ f in
                rw (unbind, e, e', f, f')
                  (record { addresses = h.addresses; passcodes = h.passcodes; ports = routes })
            | inr (a, f) ↦
                let f' : assignment_of st' key.0 ≡ some a = sym (h.addresses key.0) ∙ f in
                rw (unbind, e, e', f, f')
                  (record {
                    addresses =
                        insert_alike ℕ_discrete st.by_address st'.by_address key.0 _ h.addresses;
                    passcodes = h.passcodes;
                    ports = routes;
                  })
          ]
    ]

-- What each outcome of binding a port leaves.
pub data BindsAlike : Result Bound → Result Bound → Type 0 where
  both_refuse : (e : Error) → BindsAlike (err e) (err e)
  both_bind :
      (b b' : Bound)
      → Alike b.network b'.network
      → b.handler ≡ b'.handler
      → b.task ≡ b'.task
      → BindsAlike (ok b) (ok b')

pub bind-BindsAlike :
    (now : ℕ) (p : Passcode) (port : ℕ) (relay egress : Sender) (st st' : NetworkState)
    → Alike st st'
    → BindsAlike (bind st now p port relay egress) (bind st' now p port relay egress)
unfolding bind
bind-BindsAlike now p port relay egress st st' h = elim (Bool-cases (port == 0)) [
  | inl z ↦ rw z (both_refuse bind_port_zero)
  | inr pos ↦ elim (Option-cases (address_for st p)) [
    | inl e ↦
        let e' : address_for st' p ≡ none = sym (h.passcodes p) ∙ e in
        rw (pos, e, e') (both_refuse unknown_passcode)
    | inr (address, e) ↦
        let e' : address_for st' p ≡ some address = sym (h.passcodes p) ∙ e in
        elim (Option-cases (route st (address, port))) [
          | inr (other, f) ↦
              let f' : route st' (address, port) ≡ some other = sym (h.ports (address, port)) ∙ f in
              rw (pos, e, e', f, f') (both_refuse port_already_bound)
          | inl f ↦
              let f' : route st' (address, port) ≡ none = sym (h.ports (address, port)) ∙ f in
              elim (Option-cases (assignment_of st address)) [
                | inl g ↦
                    let g' : assignment_of st' address ≡ none = sym (h.addresses address) ∙ g in
                    rw (pos, e, e', f, f', g, g') (both_refuse assignment_missing)
                | inr (a, g) ↦
                    let g' : assignment_of st' address ≡ some a = sym (h.addresses address) ∙ g in
                    rw (pos, e, e', f, f', g, g')
                      (both_bind _ _
                        (record {
                          addresses =
                              insert_alike ℕ_discrete st.by_address st'.by_address address _
                                h.addresses;
                          passcodes = h.passcodes;
                          ports =
                              insert_alike RouteKey-discrete st.routes st'.routes (address, port)
                                relay h.ports;
                        })
                        refl refl)
              ]
        ]
  ]
]

module _ (buf : Buf) (st st' : NetworkState) (h : Alike st st') where
  deliver_alike :
      (from to : RouteKey) (content : Bytes)
      → deliver buf st from to content ≡ deliver buf st' from to content
  unfolding deliver
  deliver_alike from to content = rw (h.ports to) refl

  pub send_alike :
      (x : BindHandler) (raw : Bytes) (listens : Bool)
      → send buf st x raw listens ≡ send buf st' x raw listens
  unfolding send
  send_alike x raw listens = grind (arith, deliver_alike)

module _ {S : Type 0} where
  -- What each outcome of asking for an address leaves.
  pub data AssignsAlike
      : Result (Option (ℕ × Passcode × NetworkState × S))
        → Result (Option (ℕ × Passcode × NetworkState × S))
        → Type 0 where
    both_assign :
        (address : ℕ) (p : Passcode) (st st' : NetworkState) (s : S)
        → Alike st st'
        → AssignsAlike (ok (some (address, p, st, s))) (ok (some (address, p, st', s)))
    both_tire : AssignsAlike (ok none) (ok none)

module _ {S : Type 0} (rng : Rng S) (tries now : ℕ) where
  same_taken :
      (st st' : NetworkState) (address : ℕ) (p : Passcode)
      → Alike st st'
      → is_taken st address p ≡ is_taken st' address p
  same_taken st st' address p h = rw (h.addresses address, h.passcodes p) refl

  assign_loop-AssignsAlike :
      (fuel : ℕ) (st st' : NetworkState) (s : S)
      → Alike st st'
      → AssignsAlike (assign_loop rng fuel tries now st s) (assign_loop rng fuel tries now st' s)
  unfolding assign_loop
  assign_loop-AssignsAlike zero st st' s h = both_tire
  assign_loop-AssignsAlike (suc fuel) st st' s h =
      elim (Option-cases (random_address rng tries s)) [
        | inl e ↦ rw (assign_loop, e) both_tire
        | inr ((address, t), e) ↦
            let (p, u, drawn, back) = parse-new rng t in
            let taken = same_taken st st' address p h in
            let round = assign_loop_round rng fuel tries now st s t u address p e drawn in
            let round' = assign_loop_round rng fuel tries now st' s t u address p e drawn in
            elim (Bool-cases (is_taken st address p)) [
              | inl yet ↦
                  let yet' : is_taken st' address p ≡ true = sym taken ∙ yet in
                  rw (round, round', yet, yet') (assign_loop-AssignsAlike fuel st st' u h)
              | inr free ↦
                  let free' : is_taken st' address p ≡ false = sym taken ∙ free in
                  rw (round, round', free, free')
                    (both_assign address p _ _ u (record_assignment-Alike now address p st st' h))
            ]
      ]

  pub assign-AssignsAlike :
      (fuel before : ℕ) (st st' : NetworkState) (s : S)
      → Inv st
      → Inv st'
      → Alike st st'
      → AssignsAlike
          (assign rng fuel tries before now st s)
          (assign rng fuel tries before now st' s)
  unfolding assign
  assign-AssignsAlike fuel before st st' s v v' h =
      assign_loop-AssignsAlike fuel _ _ s (expire-Alike before st st' v v' h)
