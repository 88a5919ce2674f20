-- ===== src/Stream/Runs.antt =====
-- src/webtransport/client.rs: a session over its events, among the turns of other clients.
use lwproxy.Base.{ℕ, List, [], ◌∷◌}
use lwproxy.Wire.{Buf}
use lwproxy.Code.{Rng}
use lwproxy.Network.Leases.{Lent}
use lwproxy.Stream.{
  Met, Session, Event, accepts_bi, accepts_uni, reads, datagram, relayed, Effect, Turn, goes_on,
  fails, panics, continue_with, step, run,
}
use lwproxy.Stream.Phases.{Sound, Leaves, prefixed-Leaves, Possible, On, Plays}
use lwproxy.Stream.Phases.{Shared}
use lwproxy.Stream.{elsewhere}
use lwproxy.Commands.Refines.{Reached, Reached-Closed}
use lwproxy.Stream.Phases.{Held, Dropped}
use lwproxy.Stream.Sound.{elsewhere-Phase, step-Leaves}

module _ {S : Type 0} (rng : Rng S) where
  among_any :
      (others : List Lent) (x : Turn S × List Effect)
      → Leaves (Sound (Reached rng) others) (Held (Reached rng) others) x
      → Leaves (Shared rng) (Dropped rng) x
  among_any others (goes_on s, effects) h = (h.0, (others, h.1))
  among_any others (fails e s, effects) h = (others, h)
  among_any others (panics, effects) h = h
  among_any others (Turn.tires, effects) h = tt

  falls : (s : Session S) → Shared rng s → Dropped rng s
  falls s h = h.1

  go_on-Leaves :
      (x : Turn S × List Effect) (k : Session S → Turn S × List Effect) (Q : Session S → Type 0)
      → Leaves (Shared rng) (Dropped rng) x
      → On x Q
      → ((t : Session S) → Shared rng t → Q t → Leaves (Shared rng) (Dropped rng) (k t))
      → Leaves (Shared rng) (Dropped rng) (continue_with x k)
  go_on-Leaves (goes_on t, effects) k Q g on next =
      prefixed-Leaves (Shared rng) (Dropped rng) effects (k t) (next t g on)
  go_on-Leaves (fails e s, effects) k Q g on next = g
  go_on-Leaves (panics, effects) k Q g on next = absurd g
  go_on-Leaves (Turn.tires, effects) k Q g on next = tt

  module _ (buf : Buf) (meets : ℕ → Met) where
    step-Shared :
        (s : Session S) (event : Event S)
        → Shared rng s
        → Possible rng s event
        → Leaves (Shared rng) (Dropped rng) (step buf rng meets s event)
    unfolding step
    step-Shared s (elsewhere w) h possible = (elsewhere-Phase s w h.0, possible)
    step-Shared s (accepts_bi accepted) (p, (others, h)) possible = among_any others _ (
        step-Leaves buf rng meets (Reached rng) (Reached-Closed rng) others s (accepts_bi accepted)
          (p, h) tt)
    step-Shared s (accepts_uni accepted) (p, (others, h)) possible = among_any others _ (
        step-Leaves buf rng meets (Reached rng) (Reached-Closed rng) others s (accepts_uni accepted)
          (p, h) tt)
    step-Shared s (reads bytes hears) (p, (others, h)) possible = among_any others _ (
        step-Leaves buf rng meets (Reached rng) (Reached-Closed rng) others s (reads bytes hears)
          (p, h) tt)
    step-Shared s (datagram bytes hears) (p, (others, h)) possible = among_any others _ (
        step-Leaves buf rng meets (Reached rng) (Reached-Closed rng) others s (datagram bytes hears)
          (p, h) tt)
    step-Shared s (relayed bytes hears sends) (p, (others, h)) possible = among_any others _ (
        step-Leaves buf rng meets (Reached rng) (Reached-Closed rng) others s
          (relayed bytes hears sends) (p, h) possible)

    -- A WebTransport session runs through three phases: before its stream, with commands, on its
    -- lease. Take one in a phase, with its lease and tables among those that clients reach, and any
    -- events in which the relay speaks only once a lease holds it and other clients, who take their
    -- turns between its own, leave tables that clients reach with its lease. It never panics; where
    -- it goes on it is in a phase again, so that less than 4096 bytes of a command are held,
    -- without a newline, and the relay is there exactly until the lease is; and its tables and
    -- lease are among those that clients reach; a session that fails leaves, with the lease that it
    -- drops, tables that clients reach.
    pub run-Leaves :
        (s : Session S) (events : List (Event S))
        → Shared rng s
        → Plays buf rng meets s events
        → Leaves (Shared rng) (Dropped rng) (run buf rng meets s events)
    unfolding run
    run-Leaves s [] h plays = h
    run-Leaves s (event ∷ events) h plays =
        go_on-Leaves (step buf rng meets s event) _ (λ t. Plays buf rng meets t events)
          (step-Shared s event h plays.0) plays.1 (λ t sound on. run-Leaves t events sound on)
