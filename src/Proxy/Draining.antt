-- ===== src/Proxy/Draining.antt =====
-- How clients go: a connection that breaks ends the client's session, and its task then runs to its
-- end.
use mathlib.Core.Path.{subst}
use lwproxy.Base.{Bool, none, ℕ, ◌^◌, ◌<◌, ◌≡◌, refl, List, [], ◌∷◌, Option, true, false, some}
use lwproxy.Wire.{Buf}
use lwproxy.Code.{Rng}
use lwproxy.Lease.{Lease}
use lwproxy.Translate.{Sender}
use lwproxy.Service.{ProxyClientHandle}
use lwproxy.Commands.{Circumstances}
use lwproxy.Stream
use lwproxy.Stream.{Met}
use lwproxy.Socket
use lwproxy.Proxy.{
  Stage, Client, Proxy, greeting, on_stream, on_socket, ended, removed, greets, streams, talks,
  removes, drops, drops_early, stream_arrives, socket_arrives, Step, coming, Reach, next,
}
use lwproxy.Proxy.Readers.{fresh_channel}
use lwproxy.Proxy.Safety.{due_removal, Due-Succeeds, IsEmptied, clients-left}

abbrev any_time : ℕ → Circumstances
any_time n = record { now = 0; later = 0; fuel = 0; tries = 0; channel = 0 }

abbrev unanswered : ℕ → Met
unanswered n = record {
  circumstances = any_time n;
  response_written = false;
  newline_written = false;
}

module _ {S : Type 0} (buf : Buf) (rng : Rng S) where
  -- A step that a client takes which is there already.
  abbrev pub is_own : {p q : Proxy S} → Step buf rng p q → Bool
  is_own (stream_arrives addr relay fresh) = false
  is_own (socket_arrives addr) = false
  is_own other = true

  -- What the tasks of the clients that are there can do on their own.
  pub data Leads : Proxy S → Proxy S → Type 0 where
    stays : {p : Proxy S} → Leads p p
    goes : {p q r : Proxy S} → (st : Step buf rng p q) → is_own st ≡ true → Leads q r → Leads p r

  Leads-trans : {p q r : Proxy S} → Leads p q → Leads q r → Leads p r
  Leads-trans stays l = l
  Leads-trans (goes st own k) l = goes st own (Leads-trans k l)

  coming-is_own :
      {p q : Proxy S} (n : ℕ) (st : Step buf rng p q) → is_own st ≡ true → coming buf rng n st ≡ n
  coming-is_own n (stream_arrives addr relay fresh) own = cc
  coming-is_own n (socket_arrives addr) own = cc
  coming-is_own n (greets before h after tls accepts relay e fresh) own = refl
  coming-is_own n (streams before h after s meets event stage w e m d) own = refl
  coming-is_own n (talks before h after s meets event stage w e m d) own = refl
  coming-is_own n (removes before h after l rx w e d) own = refl
  coming-is_own n (drops_early before h after l rx now e) own = refl
  coming-is_own n (drops before h after l rx now e) own = refl

  Leads-Reach : {p q : Proxy S} (n : ℕ) → Reach buf rng n p → Leads p q → Reach buf rng n q
  Leads-Reach n r stays = r
  Leads-Reach {q = q} n r (goes {q = m} st own l) =
      Leads-Reach n (subst (λ k. Reach buf rng k m) (coming-is_own n st own) (next r st)) l

module _ {S : Type 0} (buf : Buf) (rng : Rng S) (n : ℕ) (small : n < 2 ^ 64) where
  -- A proxy that the clients' own steps lead to, and that has these clients.
  abbrev Leaves : Proxy S → List (Client S) → Type 0
  Leaves p rest = (q : Proxy S) × Leads buf rng p q × (q.clients ≡ rest)

  module _ (rest : List (Client S)) (h : ProxyClientHandle) where
    removed-Leaves :
        (p : Proxy S) (l : Option Lease) (rx : Sender)
        → p.clients ≡ record { handle = h; stage = removed l rx } ∷ rest
        → Leaves p rest
    removed-Leaves p l rx e = (_, goes (drops [] h rest l rx 0 e) refl stays, refl)

    -- One step, and what follows.
    after-Leaves :
        (p q : Proxy S) (st : Step buf rng p q)
        → is_own buf rng st ≡ true
        → Leaves q rest
        → Leaves p rest
    after-Leaves p q st own (r, leads, left) = (r, goes st own leads, left)

    ended-Leaves :
        (p : Proxy S) (l : Option Lease) (rx : Sender)
        → Reach buf rng n p
        → p.clients ≡ record { handle = h; stage = ended l rx } ∷ rest
        → Leaves p rest
    ended-Leaves p l rx r e =
        let (w, done) = Due-Succeeds buf rng n p r small (due_removal [] h rest l rx e) in
        after-Leaves p _ (removes [] h rest l rx w e done) refl (removed-Leaves _ l rx refl)

    -- A session that its transport ends.
    breaks-Leaves :
        (p q : Proxy S) (l : Option Lease) (rx : Sender) (st : Step buf rng p q)
        → Reach buf rng n p
        → is_own buf rng st ≡ true
        → q.clients ≡ record { handle = h; stage = ended l rx } ∷ rest
        → Leaves p rest
    breaks-Leaves p q l rx st r own e =
        after-Leaves p q st own
          (ended-Leaves q l rx (Leads-Reach buf rng n r (goes st own stays)) e)

    client-Leaves :
        (p : Proxy S) (stage : Stage S)
        → Reach buf rng n p
        → p.clients ≡ record { handle = h; stage = stage } ∷ rest
        → Leaves p rest
    unfolding Stream.step Socket.step
    client-Leaves p greeting r e =
        let (relay, fresh) = fresh_channel p.clients in
        breaks-Leaves p _ none relay (greets [] h rest (some false) false relay e fresh) r refl refl
    client-Leaves p (on_stream s) r e =
        breaks-Leaves p _ s.lease s.relay_rx
          (streams [] h rest s unanswered (Stream.accepts_uni true) (ended s.lease s.relay_rx)
            p.world e tt refl)
          r refl refl
    client-Leaves p (on_socket s) r e =
        breaks-Leaves p _ s.lease s.relay_rx
          (talks [] h rest s any_time Socket.breaks (ended s.lease s.relay_rx) p.world e tt refl) r
          refl refl
    client-Leaves p (ended l rx) r e = ended-Leaves p l rx r e
    client-Leaves p (removed l rx) r e = removed-Leaves p l rx e

  all-Leaves :
      (p : Proxy S) (cs : List (Client S)) → Reach buf rng n p → p.clients ≡ cs → Leaves p []
  all-Leaves p [] r e = (p, stays, e)
  all-Leaves p (c ∷ cs) r e =
      let (q, leads, left) = client-Leaves cs c.handle p c.stage r e in
      let (end, rest_leads, empty) = all-Leaves q cs (Leads-Reach buf rng n r leads) left in
      (end, Leads-trans buf rng leads rest_leads, empty)

  -- No client can get stuck. From every state that fewer than 2^64 clients reach, wherever their
  -- tasks stand, steps of the clients that are there, while no other comes, lead from that very
  -- state to a proxy without clients, in which no port is bound, no client is in the table and no
  -- assignment counts a bind: each connection can fail, its task is then removed, and its lease is
  -- dropped.
  pub drain-IsEmptied :
      (p : Proxy S)
      → Reach buf rng n p
      → (q : Proxy S) × Leads buf rng p q × (q.clients ≡ []) × IsEmptied q
  drain-IsEmptied p r =
      let (q, leads, left) = all-Leaves p p.clients r refl in
      (q, leads, left, clients-left buf rng n q (Leads-Reach buf rng n r leads) small left)
