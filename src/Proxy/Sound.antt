-- ===== src/Proxy/Sound.antt =====
-- What holds of the proxy and its clients together, and what a client's turn makes of it.
use mathlib.Core.Path.{subst}
use lwproxy.Base.{
  All-middle, ℕ, ◌≤◌, ◌≡◌, refl, sym, ◌∙◌, ap, List, [], ◌∷◌, ◌++◌, some, some_inj, All,
}
use lwproxy.Wire.{Buf}
use lwproxy.Code.{Rng}
use lwproxy.Network.{NetworkState}
use lwproxy.Translate.{RouteKey, Sender}
use lwproxy.Network.Leases.{Lent, LeadsBack, IsLeased, Step-IsLeased, leases_on}
use lwproxy.Service.{ProxyService, ProxyClientHandle}
use lwproxy.Service.Clients.{IsTable}
use lwproxy.Commands.{World, Circumstances}
use lwproxy.Commands.Refines.{Closed, handle_command-Stays}
use lwproxy.Stream
use lwproxy.Stream.{Met}
use lwproxy.Socket
use lwproxy.Proxy.{
  Stage, greeting, on_stream, on_socket, ended, removed, Client, Proxy, after_stream, after_socket,
  StreamMeets, SocketMeets, readers,
}
use lwproxy.Proxy.Counts.{
  lent_to, leases_of, handle_of, handles_of, one_first, leases_on-one_first, all-one_first,
}

pub regroup :
    (st : NetworkState) (xs ys : List Lent)
    → ((k : RouteKey) → leases_on k xs ≡ leases_on k ys)
    → (All (LeadsBack st) xs → All (LeadsBack st) ys)
    → IsLeased (record { network = st; leases = xs })
    → IsLeased (record { network = st; leases = ys })
regroup st xs ys e all v = record {
  consistent = v.consistent;
  leased = λ k. sym (e k) ∙ v.leased k;
  led = all v.led;
}

module _ {S : Type 0} where
  -- A session is in one of its phases.
  abbrev pub IsFine : Stage S → Type 0
  IsFine greeting = Unit
  IsFine (on_stream s) = Stream.Phases.Phase s
  IsFine (on_socket s) = Socket.Phases.Phase s
  IsFine (ended l rx) = Unit
  IsFine (removed l rx) = Unit

  -- The table of clients has the handles that are not removed; the tables of the network agree, and a
  -- port is bound exactly while one client's task holds the lease on it, and no two tasks read one
  -- channel.
  pub record IsSound (n : ℕ) (p : Proxy S) : Type 0 where
    pub table : IsTable n (record { service = p.world.service; held = handles_of p.clients })
    pub leased :
        IsLeased (record { network = p.world.service.network; leases = leases_of p.clients })
    pub fine : All (λ (c : Client S). IsFine c.stage) p.clients
    pub apart : (r : Sender) → readers r p.clients ≤ 1

  -- The leases agree with the tables, and of the service only the tables have changed.
  abbrev pub Stands : ProxyService → World S → List Lent → Type 0
  Stands base w leases =
      IsLeased (record { network = w.service.network; leases = leases })
      × (w.service ≡ record base { network = w.service.network })

  Stands-Closed : (rng : Rng S) (base : ProxyService) → Closed rng (Stands base)
  Stands-Closed rng base c w leases relay raw o h e =
      let (leased, same) =
        handle_command-Stays rng IsLeased c w leases (some relay) (λ z st. Step-IsLeased st h.0) h.0
          raw o e in
      (leased, same ∙ ap (λ (s : ProxyService). record s { network = o.world.service.network }) h.1)

  -- Where a turn of a client leaves it, with the leases of the others.
  abbrev pub Settled : ProxyService → List Lent → ProxyClientHandle → Stage S × World S → Type 0
  Settled base others h (stage, w) =
      IsFine stage × Stands base w (lent_to stage ++ others) × (handle_of h stage ≡ h ∷ [])

  module _ (base : ProxyService) (others : List Lent) (h : ProxyClientHandle) where
    pub after_stream-Settled :
        (x : Stream.Turn S × List Stream.Effect) (z : Stage S × World S)
        → Stream.Phases.Leaves
            (Stream.Phases.Sound (Stands base) others)
            (Stream.Phases.Held (Stands base) others)
            x
        → after_stream x.0 ≡ some z
        → Settled base others h z
    after_stream-Settled (Stream.goes_on s, effects) z v e =
        subst (Settled base others h) (some_inj e) (v.0, v.1, refl)
    after_stream-Settled (Stream.fails x s, effects) z v e =
        subst (Settled base others h) (some_inj e) (tt, v, refl)
    after_stream-Settled (Stream.panics, effects) z v e = absurd v
    after_stream-Settled (Stream.tires, effects) z v e = cc

    pub after_socket-Settled :
        (x : Socket.Turn S × List Socket.Effect) (z : Stage S × World S)
        → Socket.Phases.Leaves
            (Socket.Phases.Sound (Stands base) others)
            (Socket.Phases.Held (Stands base) others)
            x
        → after_socket x.0 ≡ some z
        → Settled base others h z
    after_socket-Settled (Socket.goes_on s, effects) z v e =
        subst (Settled base others h) (some_inj e) (v.0, v.1, refl)
    after_socket-Settled (Socket.closes s, effects) z v e =
        subst (Settled base others h) (some_inj e) (tt, v.1, refl)
    after_socket-Settled (Socket.fails x s, effects) z v e =
        subst (Settled base others h) (some_inj e) (tt, v, refl)
    after_socket-Settled (Socket.panics, effects) z v e = absurd v
    after_socket-Settled (Socket.tires, effects) z v e = cc

  stream-Admits :
      (R : World S → List Lent → Type 0) (buf : Buf) (rng : Rng S) (meets : ℕ → Met)
      (closed : Closed rng R) (others : List Lent) (w : World S) (s : Stream.Session S)
      (event : Stream.Event S)
      → StreamMeets s event
      → Stream.Sound.Admits buf rng meets R closed others (record s { world = w }) event
  stream-Admits R buf rng meets closed others w s (Stream.relayed bytes hears sends) m = m
  stream-Admits R buf rng meets closed others w s (Stream.elsewhere w') m = absurd m
  stream-Admits R buf rng meets closed others w s (Stream.accepts_bi b) m = tt
  stream-Admits R buf rng meets closed others w s (Stream.accepts_uni b) m = tt
  stream-Admits R buf rng meets closed others w s (Stream.reads b l) m = tt
  stream-Admits R buf rng meets closed others w s (Stream.datagram b l) m = tt

  socket-Admits :
      (R : World S → List Lent → Type 0) (buf : Buf) (rng : Rng S) (meets : ℕ → Circumstances)
      (closed : Closed rng R) (others : List Lent) (s : Socket.Session S) (event : Socket.Event S)
      → SocketMeets event
      → Socket.Phases.Admits buf rng meets R closed others s event
  socket-Admits R buf rng meets closed others s (Socket.arrives (Socket.text b) hears sends) m = tt
  socket-Admits R buf rng meets closed others s (Socket.arrives (Socket.binary b) hears sends) m =
      tt
  socket-Admits R buf rng meets closed others s (Socket.arrives (Socket.ping b) hears sends) m = tt
  socket-Admits R buf rng meets closed others s (Socket.arrives (Socket.pong b) hears sends) m = tt
  socket-Admits R buf rng meets closed others s (Socket.arrives (Socket.close f) hears sends) m = tt
  socket-Admits R buf rng meets closed others s (Socket.arrives (Socket.frame b) hears sends) m = m
  socket-Admits R buf rng meets closed others s Socket.breaks m = tt
  socket-Admits R buf rng meets closed others s Socket.ends m = tt
  socket-Admits R buf rng meets closed others s (Socket.relays b l sends shuts) m = tt
  socket-Admits R buf rng meets closed others s (Socket.elsewhere w) m = absurd m

  -- The leases of one client stand first.
  pub middle-Stands :
      (n : ℕ) (p : Proxy S) (before : List (Client S)) (c : Client S) (after : List (Client S))
      → IsSound n p
      → p.clients ≡ before ++ (c ∷ after)
      → IsFine c.stage × Stands p.world.service p.world (one_first c.stage before after)
  middle-Stands n p before c after v e =
      let (fb, fc, fa) =
        All-middle (λ (x : Client S). IsFine x.stage) before c after
          (subst (All (λ (x : Client S). IsFine x.stage)) e v.fine) in
      (
        fc,
        (
          regroup p.world.service.network (leases_of p.clients) (one_first c.stage before after)
              (λ k. ap (λ l. leases_on k (leases_of l)) e ∙ leases_on-one_first k before after c)
              (λ h.
                all-one_first (LeadsBack p.world.service.network) before after c
                  (subst (λ cs. All (LeadsBack p.world.service.network) (leases_of cs)) e h))
              v.leased,
          refl,
        ),
      )

  -- The leases of the other clients.
  abbrev pub others : List (Client S) → List (Client S) → List Lent
  others before after = leases_of before ++ leases_of after

  module _ (buf : Buf) (rng : Rng S) (n : ℕ) (p : Proxy S) (before : List (Client S))
      (h : ProxyClientHandle) (after : List (Client S)) (v : IsSound n p) where
    pub stream_step-Leaves :
        (meets : ℕ → Met) (s : Stream.Session S) (event : Stream.Event S)
        → p.clients ≡ before ++ (record { handle = h; stage = on_stream s } ∷ after)
        → StreamMeets s event
        → Stream.Phases.Leaves
            (Stream.Phases.Sound (Stands p.world.service) (others before after))
            (Stream.Phases.Held (Stands p.world.service) (others before after))
            (Stream.step buf rng meets (record s { world = p.world }) event)
    stream_step-Leaves meets s event e m =
        let (fine, here) =
          middle-Stands n p before (record { handle = h; stage = on_stream s }) after v e in
        Stream.Sound.step-Leaves buf rng meets (Stands p.world.service)
          (Stands-Closed rng p.world.service) (others before after) (record s { world = p.world })
          event (Stream.Sound.elsewhere-Phase s p.world fine, here)
          (stream-Admits (Stands p.world.service) buf rng meets (Stands-Closed rng p.world.service)
            (others before after) p.world s event m)

    pub socket_step-Leaves :
        (meets : ℕ → Circumstances) (s : Socket.Session S) (event : Socket.Event S)
        → p.clients ≡ before ++ (record { handle = h; stage = on_socket s } ∷ after)
        → SocketMeets event
        → Socket.Phases.Leaves
            (Socket.Phases.Sound (Stands p.world.service) (others before after))
            (Socket.Phases.Held (Stands p.world.service) (others before after))
            (Socket.step buf rng meets (record s { world = p.world }) event)
    socket_step-Leaves meets s event e m =
        let (fine, here) =
          middle-Stands n p before (record { handle = h; stage = on_socket s }) after v e in
        Socket.Phases.step-Leaves buf rng meets (Stands p.world.service)
          (Stands-Closed rng p.world.service) (others before after) (record s { world = p.world })
          event (Socket.Phases.elsewhere-Phase s p.world fine, here)
          (socket-Admits (Stands p.world.service) buf rng meets (Stands-Closed rng p.world.service)
            (others before after) (record s { world = p.world }) event m)
