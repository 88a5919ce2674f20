-- ===== src/Proxy/Reached.antt =====
-- The proxy and its clients over their life: every step, whoever takes it.
use mathlib.Core.Path.{subst}
use lwproxy.Base.{ℕ, ◌^◌, ◌<◌, ◌≤◌, refl, sym, ap, List, ◌++◌, none, arith}
use lwproxy.Wire.{Buf}
use lwproxy.Code.{Rng}
use lwproxy.Network.Leases.{Lent, start-IsLeased}
use lwproxy.Service.{ProxyClientHandle}
use lwproxy.Service.Clients.{start-IsTable}
use lwproxy.Stream
use lwproxy.Socket
use lwproxy.Proxy.{
  Stage, greeting, on_stream, on_socket, ended, removed, Proxy, greet, Step, stream_arrives,
  socket_arrives, greets, streams, talks, removes, drops_early, drops, coming, Reach, here, next,
}
use lwproxy.Proxy.{readers}
use lwproxy.Proxy.Readers.{readers-middle}
use lwproxy.Proxy.Counts.{leases_of, handles_of}
use lwproxy.Proxy.Sound.{
  IsSound, others, Stands, stream_step-Leaves, socket_step-Leaves, after_stream-Settled,
  after_socket-Settled,
}
use lwproxy.Proxy.Arrivals.{with_client-Tabled, with_client-Leased, drop_lease-Stands, greet-IsFine}
use lwproxy.Proxy.Readers.{fresh-le, reading-greet, after_stream-Rereads, after_socket-Rereads}
use lwproxy.Proxy.Moves.{own_reading, moved-IsSound, gone-IsSound, unmoved-Stands, removed-IsSound}

module _ {S : Type 0} (buf : Buf) (rng : Rng S) where
  coming-ge : {p q : Proxy S} (n : ℕ) (st : Step buf rng p q) → n ≤ coming buf rng n st
  coming-ge n (stream_arrives addr relay fresh) = omega arith
  coming-ge n (socket_arrives addr) = omega arith
  coming-ge n other = omega arith

  Step-IsSound :
      (n : ℕ) (p q : Proxy S) (st : Step buf rng p q)
      → coming buf rng n st < 2 ^ 64
      → IsSound n p
      → IsSound (coming buf rng n st) q
  unfolding readers
  Step-IsSound n p q (stream_arrives addr relay fresh) small v = record {
    table = with_client-Tabled n p.world addr (handles_of p.clients) small v.table;
    leased = with_client-Leased p.world addr (leases_of p.clients) v.leased;
    fine = (Stream.Phases.unopened refl refl refl refl refl, v.fine);
    apart = λ r. fresh-le p.clients relay fresh v.apart r;
  }
  Step-IsSound n p q (socket_arrives addr) small v = record {
    table = with_client-Tabled n p.world addr (handles_of p.clients) small v.table;
    leased = with_client-Leased p.world addr (leases_of p.clients) v.leased;
    fine = (tt, v.fine);
    apart = λ r. omega (arith, v.apart r);
  }
  Step-IsSound n p q (greets before h after tls accepts relay e fresh) small v =
      let stage : Stage S = greet p.world tls accepts relay in
      let (fine, none_held, held) = greet-IsFine p.world tls accepts relay h in
      moved-IsSound n p before h greeting after v e stage p.world refl
        (
          fine,
          subst (λ (l : List Lent). Stands p.world.service p.world (l ++ others before after))
              (sym none_held) (unmoved-Stands n p before h greeting after v e),
          held,
        )
        (λ r. omega (
          arith,
          reading-greet r p.world tls accepts relay,
          fresh-le (before ++ after) relay
              (omega (
                arith,
                ap (readers relay) e,
                readers-middle relay before (record { handle = h; stage = greeting }) after,
                fresh,
              ))
              (λ x. omega (arith, own_reading n p before h greeting after v e x)) r,
        ))
  Step-IsSound n p q (streams before h after s meets event stage w e m t) small v =
      moved-IsSound n p before h (on_stream s) after v e stage w refl
        (after_stream-Settled p.world.service (others before after) h
          (Stream.step buf rng meets (record s { world = p.world }) event) (stage, w)
          (stream_step-Leaves buf rng n p before h after v meets s event e m) t)
        (λ r. omega (
          arith,
          own_reading n p before h (on_stream s) after v e r,
          after_stream-Rereads s.relay_rx
              (Stream.step buf rng meets (record s { world = p.world }) event) (stage, w)
              (Stream.Relays.step-Reads s.relay_rx buf rng meets (record s { world = p.world })
                event refl)
              t r,
        ))
  Step-IsSound n p q (talks before h after s meets event stage w e m t) small v =
      moved-IsSound n p before h (on_socket s) after v e stage w refl
        (after_socket-Settled p.world.service (others before after) h
          (Socket.step buf rng meets (record s { world = p.world }) event) (stage, w)
          (socket_step-Leaves buf rng n p before h after v meets s event e m) t)
        (λ r. omega (
          arith,
          own_reading n p before h (on_socket s) after v e r,
          after_socket-Rereads s.relay_rx
              (Socket.step buf rng meets (record s { world = p.world }) event) (stage, w)
              (Socket.Relays.step-Reads s.relay_rx buf rng meets (record s { world = p.world })
                event refl)
              t r,
        ))
  Step-IsSound n p q (removes before h after l rx w e r) small v =
      removed-IsSound n p before h (ended l rx) after v e l rx w refl r
  Step-IsSound n p q (drops_early before h after l rx now e) small v =
      moved-IsSound n p before h (ended l rx) after v e (ended none rx) _ refl
        (
          tt,
          drop_lease-Stands rng p.world.service p.world now l rx (others before after)
              (unmoved-Stands n p before h (ended l rx) after v e),
          refl,
        )
        (own_reading n p before h (ended l rx) after v e)
  Step-IsSound n p q (drops before h after l rx now e) small v =
      gone-IsSound n p before h (removed l rx) after v e _ refl (
        drop_lease-Stands rng p.world.service p.world now l rx (others before after)
          (unmoved-Stands n p before h (removed l rx) after v e))

  -- Let clients come, fewer than 2^64, over both transports, talk, fail, leave and drop their
  -- leases in any order, with any input, generator and answers of the libraries, where a relay
  -- speaks only once a lease holds it, a new relay is one that no task reads, no raw frame arrives
  -- and the fuel of `assign` lasts. The table of clients then has an entry for exactly those that
  -- are not removed yet, under ids of their own; the tables of the network agree; a port is bound
  -- exactly while the task of one client holds the one lease on it, and leads to the relay that
  -- this client reads; no two tasks read one relay; and each session is in one of its phases.
  pub Reach-IsSound : (n : ℕ) (p : Proxy S) → Reach buf rng n p → n < 2 ^ 64 → IsSound n p
  unfolding lwproxy.Service.new lwproxy.Network.new readers
  Reach-IsSound n p (here seed) small = record {
    table = start-IsTable;
    leased = start-IsLeased;
    fine = tt;
    apart = λ r. omega arith;
  }
  Reach-IsSound n q (next {n = m} {p = p} r st) small =
      Step-IsSound m p q st small (Reach-IsSound m p r (omega (arith, coming-ge m st, small)))
