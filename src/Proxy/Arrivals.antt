-- ===== src/Proxy/Arrivals.antt =====
-- Clients that come and that are removed, and leases that are dropped: what each does to the table of
-- clients and to the leases.
use lwproxy.Base.{
  ℕ, suc, ◌^◌, ◌<◌, ◌≡◌, refl, sym, ◌∙◌, ap, Bool, true, false, List, [], ◌∷◌, ◌++◌, Option, none,
  some,
}
use lwproxy.Result.{ok, bind_ok, ok_inj}
use lwproxy.Net.{SocketAddr}
use lwproxy.Code.{Rng}
use lwproxy.Translate.{Sender}
use lwproxy.Lease
use lwproxy.Lease.{Lease, port_lease, dns_lease, connect_lease}
use lwproxy.Network.Leases.{Lent}
use lwproxy.Network.Leases.{IsLeased, Step-IsLeased, drops}
use lwproxy.Service
use lwproxy.Service.{ProxyService, ProxyClientHandle}
use lwproxy.Service.Clients.{IsTable, comes-IsTable, leaves-IsTable, remove_client-ok}
use lwproxy.Commands.{World}
use lwproxy.Commands.Refines.{port_leases}
use lwproxy.Proxy.{with_client, greet, remove, drop_lease}
use lwproxy.Proxy.Counts.{lent_to, handle_of}
use lwproxy.Proxy.Sound.{IsFine, Stands}
use lwproxy.Socket

-- The table of clients, with the handles that are not removed.
module _ {S : Type 0} where
  abbrev pub Tabled : ℕ → World S → List ProxyClientHandle → Type 0
  Tabled n w handles = IsTable n (record { service = w.service; held = handles })

  abbrev pub Leased : World S → List Lent → Type 0
  Leased w leases = IsLeased (record { network = w.service.network; leases = leases })

  pub Tabled-Stands :
      (n : ℕ) (w w' : World S) (handles : List ProxyClientHandle) (leases : List Lent)
      → Tabled n w handles
      → Stands w.service w' leases
      → Tabled n w' handles
  Tabled-Stands n w w' handles leases v h = record {
    counter = ap (λ (s : ProxyService). s.counter) h.1 ∙ v.counter;
    held = λ id. rw h.1 (v.held id);
    fresh = λ k. rw h.1 (v.fresh k);
  }

  pub with_client-Tabled :
      (n : ℕ) (w : World S) (addr : SocketAddr) (handles : List ProxyClientHandle)
      → suc n < 2 ^ 64
      → Tabled n w handles
      → Tabled (suc n) (with_client w addr).1 ((with_client w addr).0 ∷ handles)
  with_client-Tabled n w addr handles small v =
      comes-IsTable n (record { service = w.service; held = handles }) addr small v

  pub with_client-Leased :
      (w : World S) (addr : SocketAddr) (leases : List Lent)
      → Leased w leases
      → Leased (with_client w addr).1 leases
  unfolding Service.new_client
  with_client-Leased w addr leases v = v

  pub remove-IsSound :
      (n : ℕ) (w w' : World S) (h : ProxyClientHandle) (before after : List ProxyClientHandle)
      (leases : List Lent)
      → remove w h ≡ ok w'
      → Tabled n w (before ++ (h ∷ after))
      → Leased w leases
      → Tabled n w' (before ++ after) × Leased w' leases
  remove-IsSound n w w' h before after leases e v l =
      let (s, done, same) = bind_ok (Service.remove_client w.service h) _ w' e in
      let t =
        leaves-IsTable n (record { service = w.service; held = before ++ (h ∷ after) }) before h
          after s refl done v in
      let (counter, gets, kept) = remove_client-ok w.service s h done in
      let service : s ≡ w'.service = ap (λ (x : World S). x.service) (ok_inj same) in
      (rw⁻¹ service t, rw (sym service, kept) l)

  -- Only the tables of the network change.
  pub drop_lease-Stands :
      (rng : Rng S) (base : ProxyService) (w : World S) (now : ℕ) (l : Option Lease) (rx : Sender)
      (others : List Lent)
      → Stands base w (port_leases rx l ++ others)
      → Stands base (drop_lease w now l) others
  unfolding Lease.close
  drop_lease-Stands rng base w now none rx others h = h
  drop_lease-Stands rng base w now (some (port_lease b)) rx others h = (
    Step-IsLeased {rng = rng} (drops now [] (record { handler = b; relay = rx }) others refl) h.0,
    ap
        (λ (s : ProxyService). record s {
          network = (drop_lease w now (some (port_lease b))).service.network;
        })
        h.1,
  )
  drop_lease-Stands rng base w now (some (dns_lease b)) rx others h = h
  drop_lease-Stands rng base w now (some (connect_lease b)) rx others h = h

  pub greet-IsFine :
      (w : World S) (tls : Option Bool) (accepts : Bool) (relay : Sender) (h : ProxyClientHandle)
      → IsFine (greet w tls accepts relay)
        × (lent_to (greet w tls accepts relay) ≡ [])
        × (handle_of h (greet w tls accepts relay) ≡ h ∷ [])
  greet-IsFine w (some false) accepts relay h = (tt, refl, refl)
  greet-IsFine w (some true) true relay h = (Socket.Phases.commanding refl refl, refl, refl)
  greet-IsFine w (some true) false relay h = (tt, refl, refl)
  greet-IsFine w none true relay h = (Socket.Phases.commanding refl refl, refl, refl)
  greet-IsFine w none false relay h = (tt, refl, refl)
