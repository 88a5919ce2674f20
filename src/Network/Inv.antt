-- ===== src/Network/Inv.antt =====
-- When the three tables of the network agree.
use lwproxy.Base.{ℕ, ◌<◌, ◌^◌, ◌≡◌, Bool, true, some, ◌==◌, ℕ_discrete, arith, is_some}
use lwproxy.HashMap
use lwproxy.HashMap.{get-new}
use lwproxy.HashMap.Entries.{IsUnique}
use lwproxy.HashMap.Counts.{count}
use lwproxy.Code.{Passcode}
use lwproxy.Code.Addresses.{IsAssignable}
use lwproxy.Translate.{Sender, RouteKey}
use lwproxy.Network.{
  NetworkState, Assignment, RouteKey-discrete, assignment_of, address_for, route, new,
}

-- The ports bound on an address.
abbrev pub on_address : ℕ → RouteKey → Bool
on_address address key = key.0 == address

pub on_address_self : (address port : ℕ) → on_address address (address, port) ≡ true
on_address_self address port = ground arith

abbrev pub bound_ports : NetworkState → ℕ → ℕ
bound_ports st address = count (on_address address) st.routes

pub record Inv (st : NetworkState) : Type 0 where
  pub addresses_unique : IsUnique ℕ_discrete st.by_address.entries
  pub routes_unique : IsUnique RouteKey-discrete st.routes.entries
  -- A passcode leads to the assignment that it was issued with, and back.
  pub issued :
      (p : Passcode) (address : ℕ)
      → address_for st p ≡ some address
      → (a : Assignment) × (assignment_of st address ≡ some a) × (a.passcode ≡ p)
  pub held :
      (address : ℕ) (a : Assignment)
      → assignment_of st address ≡ some a
      → address_for st a.passcode ≡ some address
  -- `binds` is the number of ports that are bound.
  pub counted :
      (address : ℕ) (a : Assignment)
      → assignment_of st address ≡ some a
      → a.binds ≡ bound_ports st address
  -- A bound port lies on an assigned address, and is not 0.
  pub routed :
      (address port : ℕ) (relay : Sender)
      → route st (address, port) ≡ some relay
      → (is_some (assignment_of st address) ≡ true) × (0 < port) × (port < 2 ^ 16)
  pub assignable :
      (address : ℕ) (a : Assignment) → assignment_of st address ≡ some a → IsAssignable address

pub new-Inv : Inv new
unfolding new HashMap.new HashMap.get IsUnique
new-Inv = record {
  addresses_unique = tt;
  routes_unique = tt;
  issued = λ p address h. cc;
  held = λ address a h. cc;
  counted = λ address a h. cc;
  routed = λ address port relay h. cc;
  assignable = λ address a h. cc;
}
