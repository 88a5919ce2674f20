-- ===== src/Socket/Runs.antt =====
-- src/websocket/client.rs: a session over its events, among the turns of other clients.
use lwproxy.Base.{ℕ, List, [], ◌∷◌}
use lwproxy.Wire.{Buf}
use lwproxy.Code.{Rng}
use lwproxy.Network.Leases.{Lent}
use lwproxy.Commands.{Circumstances}
use lwproxy.Socket.{
  Session, Event, arrives, breaks, ends, relays, Effect, Turn, goes_on, closes, fails, panics, step,
  continue_with, run_client,
}
use lwproxy.Socket.{elsewhere}
use lwproxy.Commands.Refines.{Reached, Reached-Closed}
use lwproxy.Socket.Phases.{
  Phase, IsWhole, Held, Sound, Leaves, prefixed-Leaves, handle_relay-Leaves, elsewhere-Phase,
  step-Leaves,
}

module _ {S : Type 0} (rng : Rng S) where
  -- A session in one of its phases, on a network that its clients have reached, with any others.
  abbrev pub Shared : Session S → Type 0
  Shared s = Phase s × ((others : List Lent) × Held (Reached rng) others s)

  abbrev pub Dropped : Session S → Type 0
  Dropped s = (others : List Lent) × Held (Reached rng) others s

  -- Messages are whole, and others leave tables that clients reach, in which the session holds its
  -- lease.
  abbrev pub Possible : Session S → Event S → Type 0
  Possible s (arrives message listens sends) = IsWhole message
  Possible s (elsewhere w) =
      (others : List Lent) × Held (Reached rng) others (record s { world = w })
  Possible s event = Unit

  -- Of the session that a turn goes on with.
  abbrev pub On : Turn S × List Effect → (Session S → Type 0) → Type 0
  On (goes_on s, effects) P = P s
  On (closes s, effects) P = Unit
  On (fails e s, effects) P = Unit
  On (panics, effects) P = Unit
  On (Turn.tires, effects) P = Unit

  among_any :
      (others : List Lent) (x : Turn S × List Effect)
      → Leaves (Sound (Reached rng) others) (Held (Reached rng) others) x
      → Leaves Shared Dropped x
  among_any others (goes_on s, effects) h = (h.0, (others, h.1))
  among_any others (closes s, effects) h = (h.0, (others, h.1))
  among_any others (fails e s, effects) h = (others, h)
  among_any others (panics, effects) h = h
  among_any others (Turn.tires, effects) h = tt

  continue-Leaves :
      (x : Turn S × List Effect) (k : Session S → Turn S × List Effect) (Q : Session S → Type 0)
      → Leaves Shared Dropped x
      → On x Q
      → ((t : Session S) → Shared t → Q t → Leaves Shared Dropped (k t))
      → Leaves Shared Dropped (continue_with x k)
  continue-Leaves (goes_on s, effects) k Q h on next =
      prefixed-Leaves Shared Dropped effects (k s) (next s h on)
  continue-Leaves (closes s, effects) k Q h on next = h
  continue-Leaves (fails e s, effects) k Q h on next = h
  continue-Leaves (panics, effects) k Q h on next = absurd h
  continue-Leaves (Turn.tires, effects) k Q h on next = tt

  module _ (buf : Buf) (meets : ℕ → Circumstances) where
    -- Each event can happen when its turn comes.
    abbrev pub Plays : Session S → List (Event S) → Type 0
    Plays s [] = Unit
    Plays s (event ∷ events) =
        Possible s event × On (step buf rng meets s event) (λ t. Plays t events)

    step-Shared :
        (s : Session S) (event : Event S)
        → Shared s
        → Possible s event
        → Leaves Shared Dropped (step buf rng meets s event)
    unfolding step
    step-Shared s (arrives message listens sends) (p, (others, h)) whole = among_any others _ (
        step-Leaves buf rng meets (Reached rng) (Reached-Closed rng) others s
          (arrives message listens sends) (p, h) whole)
    step-Shared s breaks h possible = h.1
    step-Shared s ends h possible = h.1
    step-Shared s (relays bytes listens sends shuts) h possible =
        handle_relay-Leaves Shared Dropped (λ t k. k.1) s bytes listens sends shuts h
    step-Shared s (elsewhere w) h possible = (elsewhere-Phase s w h.0, possible)

    -- A WebSocket session has the relay exactly until it has a lease. Take one such session, with
    -- its lease and tables among those that clients reach, and any events without a raw frame in
    -- which other clients, who take their turns between its own, leave tables that clients reach
    -- with its lease. It never panics; where it goes on or ends well it is such a session again,
    -- and its tables and lease are among those that clients reach; a session that fails leaves,
    -- with the lease that it drops, tables that clients reach.
    pub run_client-Leaves :
        (s : Session S) (events : List (Event S))
        → Shared s
        → Plays s events
        → Leaves Shared Dropped (run_client buf rng meets s events)
    unfolding run_client
    run_client-Leaves s [] h plays = h
    run_client-Leaves s (event ∷ events) h plays =
        continue-Leaves (step buf rng meets s event) _ (λ t. Plays t events)
          (step-Shared s event h plays.0) plays.1
          (λ t sound on. run_client-Leaves t events sound on)
