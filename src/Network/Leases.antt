-- ===== src/Network/Leases.antt =====
-- The network over its life: clients that ask for addresses, bind ports and drop their leases, in any
-- order. Each step holds the lock on the tables from its first read to its last write.
use lwproxy.Base.{
  ℕ, ◌+◌, ◌<◌, ◌≤◌, ◌^◌, ◌≡◌, refl, List, [], ◌∷◌, ◌++◌, Option, none, some, arith, ite, All,
  All-middle, All-map, ap, sym, ◌∙◌, All-append,
}
use lwproxy.HashMap
use mathlib.Core.Path.{subst}
use mathlib.Core.Logic.{if_pos, if_neg}
use lwproxy.Result.{ok}
use lwproxy.Code.{Rng, Passcode}
use lwproxy.Translate.{Sender, RouteKey}
use lwproxy.Network.{
  NetworkState, BindHandler, Bound, RouteKey-discrete, route, new, assign, bind, close,
}
use lwproxy.Network.Inv.{Inv, new-Inv}
use lwproxy.Network.Expire.{route-expire}
use lwproxy.Network.Assign.{assign-IsFreshlyAssigned}
use lwproxy.Network.Bind.{bind-IsBound}
use lwproxy.Network.Unbind.{unbind-IsReleased}

-- A lease that is held, and the relay that it was bound with.
pub record Lent : Type 0 where
  pub handler : BindHandler
  pub relay : Sender

-- The tables, and the leases that clients hold.
pub record System : Type 0 where
  pub network : NetworkState
  pub leases : List Lent

abbrev pub start : System
start = record { network = new; leases = [] }

pub data Step {S : Type 0} (rng : Rng S) (y : System) : System → Type 0 where
  assigns :
      (fuel tries now later : ℕ) (s s' : S) (address : ℕ) (p : Passcode) (st : NetworkState)
      → assign rng fuel tries now later y.network s ≡ ok (some (address, p, st, s'))
      → Step rng y (record { network = st; leases = y.leases })
  binds :
      (now : ℕ) (p : Passcode) (port : ℕ) (relay egress : Sender) (b : Bound)
      → port < 2 ^ 16
      → bind y.network now p port relay egress ≡ ok b
      → Step rng y (record {
        network = b.network;
        leases = record { handler = b.handler; relay = relay } ∷ y.leases;
      })
  drops :
      (now : ℕ) (before : List Lent) (h : Lent) (after : List Lent)
      → y.leases ≡ before ++ (h ∷ after)
      → Step rng y (record { network = close y.network now h.handler; leases = before ++ after })

pub data Reach {S : Type 0} (rng : Rng S) : System → Type 0 where
  here : Reach rng start
  next : {y z : System} → Reach rng y → Step rng y z → Reach rng z

abbrev pub one_if {ℓ} : {A : Type ℓ} → Option A → ℕ
one_if none = 0
one_if (some a) = 1

-- How many leases on a port are held.
unfoldable pub leases_on : RouteKey → List Lent → ℕ
leases_on k [] = 0
leases_on k (h ∷ hs) = ite (RouteKey-discrete k h.handler.key) 1 0 + leases_on k hs

pub leases_on-append :
    (k : RouteKey) (xs ys : List Lent) → leases_on k (xs ++ ys) ≡ leases_on k xs + leases_on k ys
unfolding leases_on
leases_on-append k [] ys = omega arith
leases_on-append k (h ∷ xs) ys = omega (arith, leases_on-append k xs ys)

-- The route of a lease leads to the relay that the lease was bound with.
abbrev pub LeadsBack : NetworkState → Lent → Type 0
LeadsBack st l = route st l.handler.key ≡ some l.relay

-- A port is bound exactly while one lease on it is held, never are there two, and it leads to the
-- relay of the lease.
pub record IsLeased (y : System) : Type 0 where
  pub consistent : Inv y.network
  pub leased : (k : RouteKey) → leases_on k y.leases ≡ one_if (route y.network k)
  pub led : All (LeadsBack y.network) y.leases

pub start-IsLeased : IsLeased start
unfolding new leases_on HashMap.new HashMap.get
start-IsLeased = record { consistent = new-Inv; leased = λ k. refl; led = tt }

one_if-le {ℓ} : {A : Type ℓ} (o : Option A) → one_if o ≤ 1
one_if-le none = omega arith
one_if-le (some a) = omega arith

-- Taking a lease out of the list.
module _ (k : RouteKey) (before : List Lent) (h : Lent) (after : List Lent) where
  leases_on-removed :
      leases_on k (before ++ (h ∷ after))
      ≡ leases_on k (before ++ after) + ite (RouteKey-discrete k h.handler.key) 1 0
  unfolding leases_on
  leases_on-removed =
      omega (arith, leases_on-append k before (h ∷ after), leases_on-append k before after)

  leases_on-released :
      (o : Option Sender)
      → leases_on k (before ++ (h ∷ after)) ≡ one_if o
      → leases_on k (before ++ after) ≡ one_if (ite (RouteKey-discrete k h.handler.key) none o)
  leases_on-released o e = elim (RouteKey-discrete k h.handler.key) [
    | yes p ↦ rw (if_pos _ p) (
        omega (
          arith,
          one_if-le o,
          rw (if_pos (RouteKey-discrete k h.handler.key) p) at leases_on-removed,
        ))
    | no n ↦
        rw (if_neg _ n)
          (omega (arith, rw (if_neg (RouteKey-discrete k h.handler.key) n) at leases_on-removed))
  ]

-- Leases whose routes stay as they are.
kept-LeadsBack :
    (st st' : NetworkState) (k : RouteKey) (o : Option Sender)
    → ((key : RouteKey) → route st' key ≡ ite (RouteKey-discrete key k) o (route st key))
    → (ls : List Lent) → leases_on k ls ≡ 0
    → All (LeadsBack st) ls
    → All (LeadsBack st') ls
unfolding leases_on
kept-LeadsBack st st' k o routes [] none_on h = tt
kept-LeadsBack st st' k o routes (l ∷ ls) none_on h = elim (RouteKey-discrete k l.handler.key) [
  | yes p ↦ absurd (omega (arith, rw (if_pos (RouteKey-discrete k l.handler.key) p) at none_on))
  | no n ↦
      let rest : leases_on k ls ≡ 0 = omega (arith, none_on) in
      (
        routes l.handler.key
            ∙ if_neg (RouteKey-discrete l.handler.key k) (λ p. n (sym p)) o (route st l.handler.key)
            ∙ h.0,
        kept-LeadsBack st st' k o routes ls rest h.1,
      )
]

drop-IsLeased :
    (y : System) (now : ℕ) (before : List Lent) (h : Lent) (after : List Lent)
    → y.leases ≡ before ++ (h ∷ after)
    → IsLeased y
    → IsLeased (record { network = close y.network now h.handler; leases = before ++ after })
drop-IsLeased y now before h after e v =
    let done = unbind-IsReleased y.network v.consistent now h.handler.key.0 h.handler.key.1 in
    record {
      consistent = done.consistent;
      leased = λ k.
          rw (done.routes k)
            (leases_on-released k before h after (route y.network k) (rw e at (v.leased k)));
      led =
          let key = h.handler.key in
          let (lb, lh, la) =
            All-middle (LeadsBack y.network) before h after
              (subst (All (LeadsBack y.network)) e v.led) in
          kept-LeadsBack y.network (close y.network now h.handler) key none done.routes
            (before ++ after)
            (leases_on-released key before h after (route y.network key) (rw e at (v.leased key))
              ∙ ap one_if (if_pos (RouteKey-discrete key key) refl none (route y.network key)))
            (All-append (LeadsBack y.network) before after lb la);
    }

module _ {S : Type 0} {rng : Rng S} where
  pub Step-IsLeased : {y z : System} → Step rng y z → IsLeased y → IsLeased z
  unfolding leases_on
  Step-IsLeased {y} (assigns fuel tries now later s s' address p st e) v =
      let w =
        assign-IsFreshlyAssigned rng fuel tries now later y.network s {s' = s'} v.consistent e in
      record {
        consistent = w.consistent;
        leased = λ k. rw (w.routes_kept, route-expire now y.network) (v.leased k);
        led = All-map (λ l h. rw (w.routes_kept, route-expire now y.network) h) y.leases v.led;
      }
  Step-IsLeased {y} (binds now p port relay egress b small e) v =
      let (address, w) = bind-IsBound y.network v.consistent now p port relay egress b small e in
      record {
        consistent = w.consistent;
        leased = λ k. ground (arith, w.routes k, v.leased k, w.key, w.was_free);
        led = (
          ground (arith, w.routes b.handler.key, w.key),
          kept-LeadsBack y.network b.network (address, port) (some relay) w.routes y.leases
              (v.leased (address, port) ∙ ap one_if w.was_free) v.led,
        );
      }
  Step-IsLeased {y} (drops now before h after e) v = drop-IsLeased y now before h after e v

  -- In every state that clients reach by asking for addresses, binding ports and dropping leases,
  -- in any order and with any generator, the three tables agree, a route exists exactly while one
  -- lease on its port is held, never two, and it leads to the relay that this lease was bound with.
  pub Reach-IsLeased : {y : System} → Reach rng y → IsLeased y
  Reach-IsLeased here = start-IsLeased
  Reach-IsLeased (next r st) = Step-IsLeased st (Reach-IsLeased r)
