-- ===== src/Proxy/Counts.antt =====
-- What the clients hold between them: their leases on ports, and their places in the table of clients.
use mathlib.Core.Path.{subst}
use lwproxy.Base.{
  ◌≡◌, refl, sym, ◌∙◌, ap, List, [], ◌∷◌, ◌++◌, Option, none, arith, append_assoc, All, All-swap,
}
use lwproxy.Lease.{Lease}
use lwproxy.Translate.{RouteKey, Sender}
use lwproxy.Network.Leases.{Lent, leases_on, leases_on-append}
use lwproxy.Service.{ProxyClientHandle}
use lwproxy.Commands.Refines.{port_leases}
use lwproxy.Proxy.{Stage, greeting, on_stream, on_socket, ended, removed, Client}

module _ {S : Type 0} where
  -- The lease of a client's task.
  abbrev pub lease_of : Stage S → Option Lease
  lease_of greeting = none
  lease_of (on_stream s) = s.lease
  lease_of (on_socket s) = s.lease
  lease_of (ended l rx) = l
  lease_of (removed l rx) = l

  -- The relay that it reads, or has read.
  abbrev pub relay_at : Stage S → Sender
  relay_at greeting = 0
  relay_at (on_stream s) = s.relay_rx
  relay_at (on_socket s) = s.relay_rx
  relay_at (ended l rx) = rx
  relay_at (removed l rx) = rx

  -- The lease, if it is one on a port.
  abbrev pub lent_to : Stage S → List Lent
  lent_to stage = port_leases (relay_at stage) (lease_of stage)

  abbrev pub leases_of : List (Client S) → List Lent
  leases_of [] = []
  leases_of (c ∷ cs) = lent_to c.stage ++ leases_of cs

  abbrev pub handle_of : ProxyClientHandle → Stage S → List ProxyClientHandle
  handle_of h greeting = h ∷ []
  handle_of h (on_stream s) = h ∷ []
  handle_of h (on_socket s) = h ∷ []
  handle_of h (ended l rx) = h ∷ []
  handle_of h (removed l rx) = []

  -- The handles of the clients that are not removed yet.
  abbrev pub handles_of : List (Client S) → List ProxyClientHandle
  handles_of [] = []
  handles_of (c ∷ cs) = handle_of c.handle c.stage ++ handles_of cs

  pub leases_of-append :
      (xs ys : List (Client S)) → leases_of (xs ++ ys) ≡ leases_of xs ++ leases_of ys
  leases_of-append [] ys = refl
  leases_of-append (x ∷ xs) ys =
      ap (λ l. lent_to x.stage ++ l) (leases_of-append xs ys)
      ∙ sym (append_assoc (lent_to x.stage) (leases_of xs) (leases_of ys))

  pub handles_of-append :
      (xs ys : List (Client S)) → handles_of (xs ++ ys) ≡ handles_of xs ++ handles_of ys
  handles_of-append [] ys = refl
  handles_of-append (x ∷ xs) ys =
      ap (λ l. handle_of x.handle x.stage ++ l) (handles_of-append xs ys)
      ∙ sym (append_assoc (handle_of x.handle x.stage) (handles_of xs) (handles_of ys))

  -- The leases, with those of one client first.
  abbrev pub one_first : Stage S → List (Client S) → List (Client S) → List Lent
  one_first stage before after = lent_to stage ++ (leases_of before ++ leases_of after)

  pub all-one_first :
      (P : Lent → Type 0) (before after : List (Client S)) (c : Client S)
      → All P (leases_of (before ++ (c ∷ after)))
      → All P (one_first c.stage before after)
  all-one_first P before after c h =
      All-swap P (leases_of before) (lent_to c.stage) (leases_of after)
        (subst (All P) (leases_of-append before (c ∷ after)) h)

  pub one_first-all :
      (P : Lent → Type 0) (before after : List (Client S)) (c : Client S)
      → All P (one_first c.stage before after)
      → All P (leases_of (before ++ (c ∷ after)))
  one_first-all P before after c h =
      subst (All P) (sym (leases_of-append before (c ∷ after)))
        (All-swap P (lent_to c.stage) (leases_of before) (leases_of after) h)

  pub leases_on-one_first :
      (k : RouteKey) (before after : List (Client S)) (c : Client S)
      → leases_on k (leases_of (before ++ (c ∷ after)))
        ≡ leases_on k (one_first c.stage before after)
  leases_on-one_first k before after c =
      ap (leases_on k) (leases_of-append before (c ∷ after))
      ∙ omega (
        arith,
        leases_on-append k (leases_of before) (lent_to c.stage ++ leases_of after),
        leases_on-append k (lent_to c.stage) (leases_of after),
        leases_on-append k (lent_to c.stage) (leases_of before ++ leases_of after),
        leases_on-append k (leases_of before) (leases_of after),
      )
