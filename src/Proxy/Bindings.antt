-- ===== src/Proxy/Bindings.antt =====
-- Clients that hold a lease on a port, in a proxy that clients reach.
use mathlib.Core.Path.{subst}
use lwproxy.Base.{
  ℕ, ◌≡◌, ap, true, List, ◌∷◌, ◌++◌, some, arith, All, All-split, Option-cases, inl, inr, is_some,
}
use lwproxy.Net.{IsIpv6, IsU16}
use lwproxy.Code.{is_network_address}
use lwproxy.Network.{BindHandler, route, assignment_of}
use lwproxy.Network.Leases.{LeadsBack}
use lwproxy.Lease.{port_lease}
use lwproxy.Service.{ProxyClientHandle}
use lwproxy.Commands.Refines.{port_leases}
use lwproxy.Proxy.{Stage, Client, Proxy, readers}
use lwproxy.Proxy.Readers.{is_session, readers-middle, reading-relay_at}
use lwproxy.Proxy.Counts.{lease_of, relay_at, lent_to, leases_of, all-one_first}
use lwproxy.Proxy.Sound.{IsSound, IsFine, others, middle-Stands}

-- A client in its session, with a lease on a port.
pub record Binds {S : Type 0} (p : Proxy S) (stage : Stage S) (h : BindHandler) : Type 0 where
  pub before : List (Client S)
  pub handle : ProxyClientHandle
  pub after : List (Client S)
  pub at : p.clients ≡ before ++ (record { handle = handle; stage = stage } ∷ after)
  pub running : is_session stage ≡ true
  pub leases : lease_of stage ≡ some (port_lease h)

module _ {S : Type 0} {p : Proxy S} {n : ℕ} (v : IsSound n p) where
  pub Binds-LeadsBack :
      (stage : Stage S) (h : BindHandler)
      → Binds p stage h
      → route p.world.service.network h.key ≡ some (relay_at stage)
  Binds-LeadsBack stage h b =
      let st = p.world.service.network in
      let c : Client S = record { handle = b.handle; stage = stage } in
      let led =
        all-one_first (LeadsBack st) b.before b.after c
          (subst (λ cs. All (LeadsBack st) (leases_of cs)) b.at v.leased.led) in
      let (own, rest) = All-split (LeadsBack st) (lent_to stage) (others b.before b.after) led in
      (subst (λ l. All (LeadsBack st) (port_leases (relay_at stage) l)) b.leases own).0

  -- No other client's task reads its channel.
  pub Binds-readers :
      (stage : Stage S) (h : BindHandler) → Binds p stage h → readers (relay_at stage) p.clients ≡ 1
  Binds-readers stage h b = omega (
    arith,
    v.apart (relay_at stage),
    ap (readers (relay_at stage)) b.at,
    readers-middle (relay_at stage) b.before (record { handle = b.handle; stage = stage }) b.after,
    reading-relay_at stage b.running,
  )

  pub Binds-IsFine : (stage : Stage S) (h : BindHandler) → Binds p stage h → IsFine stage
  Binds-IsFine stage h b =
      (middle-Stands n p b.before (record { handle = b.handle; stage = stage }) b.after v b.at).0

  -- A bound port lies on the private network.
  pub Binds-in_network :
      (stage : Stage S) (h : BindHandler)
      → Binds p stage h
      → IsIpv6 h.key.0 × IsU16 h.key.1 × (is_network_address h.key.0 ≡ true)
  Binds-in_network stage h b =
      let inv = v.leased.consistent in
      let (assigned, above, small) =
        inv.routed h.key.0 h.key.1 (relay_at stage) (Binds-LeadsBack stage h b) in
      elim (Option-cases (assignment_of p.world.service.network h.key.0)) [
        | inl missing ↦ absurd (cc (assigned, ap is_some missing))
        | inr (a, there) ↦ let w = inv.assignable h.key.0 a there in (w.fits, small, w.in_network)
      ]
