-- ===== src/Proxy/Safety.antt =====
-- What the proxy's clients can rely on: that their tasks do not panic, and what is left of them.
use lwproxy.Base.{
  ℕ, ◌^◌, ◌<◌, ◌≡◌, ◌≢◌, refl, sym, ◌∙◌, ap, List, [], ◌∷◌, ◌++◌, Option, none, some, arith,
}
use lwproxy.Result.{ok}
use lwproxy.Wire.{Buf}
use lwproxy.Code.{Rng}
use lwproxy.Lease.{Lease}
use lwproxy.Translate.{RouteKey, Sender}
use lwproxy.Network.{NetworkState, Assignment, RouteKey-discrete, assignment_of, route}
use lwproxy.Network.Inv.{Inv, on_address}
use lwproxy.Network.Leases.{leases_on}
use lwproxy.HashMap.Counts.{count-zero}
use lwproxy.Service
use lwproxy.Service.{ProxyClientHandle}
use lwproxy.Service.Clients.{client_for, handles_with, remove_client-held}
use lwproxy.Commands.{World, Circumstances}
use lwproxy.Network.Leases.{Lent}
use lwproxy.Stream
use lwproxy.Stream.{Met}
use lwproxy.Socket
use lwproxy.Proxy.{
  Client, Proxy, on_stream, on_socket, ended, StreamMeets, SocketMeets, Reach, remove,
}
use lwproxy.Proxy.Counts.{leases_of, handles_of, handles_of-append}
use lwproxy.Proxy.Sound.{IsSound, stream_step-Leaves, socket_step-Leaves}
use lwproxy.Proxy.Reached.{Reach-IsSound}

-- How many ports an address counts as bound.
abbrev pub binds_of : Option Assignment → ℕ
binds_of none = 0
binds_of (some a) = a.binds

-- No port is bound, no client is in the table, and no assignment counts a bind.
abbrev pub IsEmptied : {S : Type 0} → Proxy S → Type 0
IsEmptied p =
    ((k : RouteKey) → route p.world.service.network k ≡ none)
    × ((id : ℕ) → client_for p.world.service id ≡ none)
    × ((address : ℕ) → binds_of (assignment_of p.world.service.network address) ≡ 0)

no_binds :
    (st : NetworkState)
    → Inv st
    → (address : ℕ) → ((k : RouteKey) → route st k ≡ none)
    → (o : Option Assignment) → assignment_of st address ≡ o
    → binds_of o ≡ 0
no_binds st v address no_route none e = refl
no_binds st v address no_route (some a) e =
    v.counted address a e
    ∙ count-zero RouteKey-discrete (on_address address) st.routes (λ k q. no_route k)

-- What the task of a client may have to do next: a turn of its session, or the end of the task.
pub data Due {S : Type 0} (p : Proxy S) : Type 0 where
  due_stream :
      (before : List (Client S)) (handle : ProxyClientHandle) (after : List (Client S))
      (s : Stream.Session S) (meets : ℕ → Met) (event : Stream.Event S)
      → p.clients ≡ before ++ (record { handle = handle; stage = on_stream s } ∷ after)
      → StreamMeets s event
      → Due p
  due_socket :
      (before : List (Client S)) (handle : ProxyClientHandle) (after : List (Client S))
      (s : Socket.Session S) (meets : ℕ → Circumstances) (event : Socket.Event S)
      → p.clients ≡ before ++ (record { handle = handle; stage = on_socket s } ∷ after)
      → SocketMeets event
      → Due p
  due_removal :
      (before : List (Client S)) (handle : ProxyClientHandle) (after : List (Client S))
      (l : Option Lease) (rx : Sender)
      → p.clients ≡ before ++ (record { handle = handle; stage = ended l rx } ∷ after)
      → Due p

module _ {S : Type 0} (buf : Buf) (rng : Rng S) where
  -- It does not panic; the removal succeeds.
  abbrev pub Succeeds : (p : Proxy S) → Due p → Type 0
  Succeeds p (due_stream before h after s meets event e m) =
      (Stream.step buf rng meets (record s { world = p.world }) event).0 ≢ Stream.panics
  Succeeds p (due_socket before h after s meets event e m) =
      (Socket.step buf rng meets (record s { world = p.world }) event).0 ≢ Socket.panics
  Succeeds p (due_removal before h after l rx e) = (w : World S) × (remove p.world h ≡ ok w)

  stream-ne-panics :
      (P F : Stream.Session S → Type 0) (x : Stream.Turn S × List Stream.Effect)
      → Stream.Phases.Leaves P F x
      → x.0 ≢ Stream.panics
  stream-ne-panics P F (Stream.goes_on s, effects) h = ground arith
  stream-ne-panics P F (Stream.fails e s, effects) h = ground arith
  stream-ne-panics P F (Stream.panics, effects) h = absurd h
  stream-ne-panics P F (Stream.tires, effects) h = ground arith

  socket-ne-panics :
      (P F : Socket.Session S → Type 0) (x : Socket.Turn S × List Socket.Effect)
      → Socket.Phases.Leaves P F x
      → x.0 ≢ Socket.panics
  socket-ne-panics P F (Socket.goes_on s, effects) h = ground arith
  socket-ne-panics P F (Socket.closes s, effects) h = ground arith
  socket-ne-panics P F (Socket.fails e s, effects) h = ground arith
  socket-ne-panics P F (Socket.panics, effects) h = absurd h
  socket-ne-panics P F (Socket.tires, effects) h = ground arith

  removal-Succeeds :
      (n : ℕ) (p : Proxy S) (before : List (Client S)) (h : ProxyClientHandle)
      (after : List (Client S)) (l : Option Lease) (rx : Sender)
      → p.clients ≡ before ++ (record { handle = h; stage = ended l rx } ∷ after)
      → IsSound n p
      → (w : World S) × (remove p.world h ≡ ok w)
  removal-Succeeds n p before h after l rx e v =
      let (s, done) =
        remove_client-held n (record { service = p.world.service; held = handles_of p.clients })
          (handles_of before) h (handles_of after)
          (ap handles_of e
            ∙ handles_of-append before (record { handle = h; stage = ended l rx } ∷ after))
          v.table in
      (record p.world { service = s }, rw done refl)

  -- Whatever fewer than 2^64 clients have done so far, no next turn of any session panics, with any
  -- events that its transport, its relay and its lease can bring, and the removal of a client whose
  -- session has ended always finds its entry.
  pub Due-Succeeds :
      (n : ℕ) (p : Proxy S) → Reach buf rng n p → n < 2 ^ 64 → (d : Due p) → Succeeds p d
  Due-Succeeds n p r small (due_stream before h after s meets event e m) = stream-ne-panics _ _ _ (
      stream_step-Leaves buf rng n p before h after (Reach-IsSound buf rng n p r small) meets s
        event e m)
  Due-Succeeds n p r small (due_socket before h after s meets event e m) = socket-ne-panics _ _ _ (
      socket_step-Leaves buf rng n p before h after (Reach-IsSound buf rng n p r small) meets s
        event e m)
  Due-Succeeds n p r small (due_removal before h after l rx e) =
      removal-Succeeds n p before h after l rx e (Reach-IsSound buf rng n p r small)

  -- Once all of fewer than 2^64 clients that came are gone, nothing of them is left: no port is
  -- bound, no client is in the table, and no assignment counts a bind, so that each can expire.
  pub clients-left :
      (n : ℕ) (p : Proxy S) → Reach buf rng n p → n < 2 ^ 64 → p.clients ≡ [] → IsEmptied p
  unfolding leases_on handles_with
  clients-left n p r small e =
      let v = Reach-IsSound buf rng n p r small in
      let st = p.world.service.network in
      let no_route : (k : RouteKey) → route st k ≡ none = λ k.
        no_lease (route st k) (sym (v.leased.leased k) ∙ ap (λ cs. leases_on k (leases_of cs)) e) in
      (
        no_route,
        λ id.
            no_client (client_for p.world.service id)
              (sym (v.table.held id) ∙ ap (λ cs. handles_with id (handles_of cs)) e),
        λ address. no_binds st v.leased.consistent address no_route (assignment_of st address) refl,
      )
    where
      no_lease : {A : Type 0} (o : Option A) → lwproxy.Network.Leases.one_if o ≡ 0 → o ≡ none
      no_lease none h = refl
      no_lease (some a) h = cc

      no_client : (o : Option ProxyClientHandle) → lwproxy.Service.Clients.one_if o ≡ 0 → o ≡ none
      no_client none h = refl
      no_client (some a) h = cc
