-- ===== src/Proxy/Readers.antt =====
-- Which channels the clients' tasks read: no two read the same.
use mathlib.Core.Path.{subst}
use mathlib.Core.Logic.{if_pos, if_neg}
use lwproxy.Base.{
  ℕ, suc, ◌+◌, ◌<◌, ◌≤◌, ◌≡◌, ◌≢◌, refl, ap, List, [], ◌∷◌, ◌++◌, Option, some, none, some_inj,
  arith, ite, ℕ_discrete, Bool, true, false,
}
use lwproxy.Translate.{Sender}
use lwproxy.Commands.{World}
use lwproxy.Stream
use lwproxy.Socket
use lwproxy.Proxy.Counts.{relay_at}
use lwproxy.Proxy.{
  Stage, Client, greeting, on_stream, on_socket, ended, removed, after_stream, after_socket,
  reading, readers, greet,
}

one_at : (r : Sender) → ite {C = ℕ} (ℕ_discrete r r) 1 0 ≡ 1
one_at r = if_pos (ℕ_discrete r r) refl 1 0

none_above : (r x : Sender) → x < r → ite {C = ℕ} (ℕ_discrete r x) 1 0 ≡ 0
none_above r x h = let apart : r ≢ x = omega arith in if_neg (ℕ_discrete r x) apart 1 0

-- The session runs.
abbrev pub is_session : {S : Type 0} → Stage S → Bool
is_session (on_stream s) = true
is_session (on_socket s) = true
is_session other = false

module _ {S : Type 0} where
  readers-append :
      (r : Sender) (xs ys : List (Client S)) → readers r (xs ++ ys) ≡ readers r xs + readers r ys
  unfolding readers
  readers-append r [] ys = omega arith
  readers-append r (x ∷ xs) ys = omega (arith, readers-append r xs ys)

  pub readers-middle :
      (r : Sender) (before : List (Client S)) (c : Client S) (after : List (Client S))
      → readers r (before ++ (c ∷ after)) ≡ reading r c.stage + readers r (before ++ after)
  unfolding readers
  readers-middle r before c after =
      omega (arith, readers-append r before (c ∷ after), readers-append r before after)

  -- One that reads a fresh channel.
  pub fresh-le :
      (cs : List (Client S)) (relay : Sender)
      → readers relay cs ≡ 0
      → ((r : Sender) → readers r cs ≤ 1)
      → (r : Sender) → ite (ℕ_discrete r relay) 1 0 + readers r cs ≤ 1
  fresh-le cs relay fresh all r = elim (ℕ_discrete r relay) [
    | yes p ↦ rw (if_pos _ p) (omega (arith, ap (λ x. readers x cs) p, fresh))
    | no n ↦ rw (if_neg _ n) (omega (arith, all r))
  ]

  -- Channels above all that are read are fresh.
  reading-above : (r : Sender) (stage : Stage S) → relay_at stage < r → reading r stage ≡ 0
  reading-above r greeting h = refl
  reading-above r (on_stream s) h = none_above r _ h
  reading-above r (on_socket s) h = none_above r _ h
  reading-above r (ended l rx) h = none_above r _ h
  reading-above r (removed l rx) h = none_above r _ h

  above_all : (cs : List (Client S)) → (m : ℕ) × ((r : Sender) → m ≤ r → readers r cs ≡ 0)
  unfolding readers
  above_all [] = (0, λ r h. refl)
  above_all (c ∷ cs) =
      let (m, none_from) = above_all cs in
      (
        suc (relay_at c.stage) + m,
        λ r h. omega (arith, reading-above r c.stage (omega arith), none_from r (omega arith)),
      )

  -- The session of a client reads the channel that the client's relay leads to.
  pub reading-relay_at :
      (stage : Stage S) → is_session stage ≡ true → reading (relay_at stage) stage ≡ 1
  reading-relay_at greeting h = cc
  reading-relay_at (on_stream s) h = one_at _
  reading-relay_at (on_socket s) h = one_at _
  reading-relay_at (ended l rx) h = cc
  reading-relay_at (removed l rx) h = cc

  -- There always is a fresh one.
  pub fresh_channel : (cs : List (Client S)) → (r : Sender) × (readers r cs ≡ 0)
  fresh_channel cs = let (m, none_from) = above_all cs in (m, none_from m (omega arith))

  pub reading-greet :
      (r : Sender) (w : World S) (tls : Option Bool) (accepts : Bool) (relay : Sender)
      → reading r (greet w tls accepts relay) ≡ ite (ℕ_discrete r relay) 1 0
  reading-greet r w (some false) accepts relay = refl
  reading-greet r w (some true) true relay = refl
  reading-greet r w (some true) false relay = refl
  reading-greet r w none true relay = refl
  reading-greet r w none false relay = refl

  -- A turn leaves a client with the channel that it has read.
  abbrev pub Rereads : Sender → Stage S → Type 0
  Rereads rx stage = (r : Sender) → reading r stage ≡ ite (ℕ_discrete r rx) 1 0

  pub after_stream-Rereads :
      (rx : Sender) (x : Stream.Turn S × List Stream.Effect) (z : Stage S × World S)
      → Stream.Relays.Reads rx x
      → after_stream x.0 ≡ some z
      → Rereads rx z.0
  after_stream-Rereads rx (Stream.goes_on s, effects) z h e =
      subst (λ (y : Stage S × World S). Rereads rx y.0) (some_inj e)
        (λ r. ap (λ x. ite (ℕ_discrete r x) 1 0) h)
  after_stream-Rereads rx (Stream.fails x s, effects) z h e =
      subst (λ (y : Stage S × World S). Rereads rx y.0) (some_inj e)
        (λ r. ap (λ x. ite (ℕ_discrete r x) 1 0) h)
  after_stream-Rereads rx (Stream.panics, effects) z h e = cc
  after_stream-Rereads rx (Stream.tires, effects) z h e = cc

  pub after_socket-Rereads :
      (rx : Sender) (x : Socket.Turn S × List Socket.Effect) (z : Stage S × World S)
      → Socket.Relays.Reads rx x
      → after_socket x.0 ≡ some z
      → Rereads rx z.0
  after_socket-Rereads rx (Socket.goes_on s, effects) z h e =
      subst (λ (y : Stage S × World S). Rereads rx y.0) (some_inj e)
        (λ r. ap (λ x. ite (ℕ_discrete r x) 1 0) h)
  after_socket-Rereads rx (Socket.closes s, effects) z h e =
      subst (λ (y : Stage S × World S). Rereads rx y.0) (some_inj e)
        (λ r. ap (λ x. ite (ℕ_discrete r x) 1 0) h)
  after_socket-Rereads rx (Socket.fails x s, effects) z h e =
      subst (λ (y : Stage S × World S). Rereads rx y.0) (some_inj e)
        (λ r. ap (λ x. ite (ℕ_discrete r x) 1 0) h)
  after_socket-Rereads rx (Socket.panics, effects) z h e = cc
  after_socket-Rereads rx (Socket.tires, effects) z h e = cc
