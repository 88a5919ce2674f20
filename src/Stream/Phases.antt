-- ===== src/Stream/Phases.antt =====
-- src/webtransport/client.rs: the phases of a session, before its stream, while it sends commands, and
-- on its lease; what a turn may leave.
use lwproxy.Base.{
  ℕ, ◌<◌, ◌≡◌, ◌≢◌, refl, ap, Bool, true, false, not, ◌||◌, List, [], ◌∷◌, ◌++◌, Option, none, some,
  is_some, arith, length, Bytes, if◌then◌else◌,
}
use lwproxy.Result.{if_both, if_second, Result, ok, err, panic}
use lwproxy.Wire.{Buf}
use lwproxy.Code.{Rng}
use lwproxy.Lease.{Lease, Delivery}
use lwproxy.Commands.{World, max_command_size}
use lwproxy.Commands.Ends.{is_port_lease}
use lwproxy.Network.Leases.{Lent}
use lwproxy.Commands.Refines.{Reached, port_leases}
use lwproxy.Stream.{
  split_line, Met, Session, Event, relayed, elsewhere, Effect, Turn, goes_on, fails, panics,
  continue_with, leased, write_answer, sent_on, step,
}
use lwproxy.Stream.Turns.{Holds}

module _ {S : Type 0} where
  pub data Phase (s : Session S) : Type 0 where
    unopened :
        s.send ≡ false
        → s.recv ≡ false
        → s.lease ≡ none
        → s.relay_tx ≡ some s.relay_rx
        → s.cmdbuf ≡ []
        → Phase s
    commanding :
        s.send ≡ true
        → s.lease ≡ none
        → s.relay_tx ≡ some s.relay_rx
        → length s.cmdbuf < max_command_size
        → split_line s.cmdbuf ≡ none
        → Phase s
    leasing :
        (l : Lease)
        → s.send ≡ true
        → s.lease ≡ some l
        → s.relay_tx ≡ none
        → s.relay_udp ≡ is_port_lease l
        → s.cmdbuf ≡ []
        → Phase s

  -- Within the loop over the commands the buffer may hold anything.
  pub data Between (s : Session S) : Type 0 where
    free : s.send ≡ true → s.lease ≡ none → s.relay_tx ≡ some s.relay_rx → Between s
    taken :
        (l : Lease)
        → s.send ≡ true
        → s.lease ≡ some l
        → s.relay_tx ≡ none
        → s.relay_udp ≡ is_port_lease l
        → Between s

  -- What the session holds in the world, among the others.
  abbrev pub Held : (World S → List Lent → Type 0) → List Lent → Session S → Type 0
  Held R others s = R s.world (port_leases s.relay_rx s.lease ++ others)

  -- A session in one of its phases, or within its loop.
  abbrev pub Sound : (World S → List Lent → Type 0) → List Lent → Session S → Type 0
  Sound R others s = Phase s × Held R others s

  abbrev pub Working : (World S → List Lent → Type 0) → List Lent → Session S → Type 0
  Working R others s = Between s × Held R others s

  -- A turn that goes on leaves the one, a turn that fails the other, and no turn panics.
  abbrev pub Leaves : (Session S → Type 0) → (Session S → Type 0) → Turn S × List Effect → Type 0
  Leaves P F (goes_on s, effects) = P s
  Leaves P F (fails e s, effects) = F s
  Leaves P F (panics, effects) = ⊥
  Leaves P F (Turn.tires, effects) = Unit

  pub leased-send : (s : Session S) (l : Option Lease) (udp : Bool) → (leased s l udp).send ≡ s.send
  leased-send s none udp = refl
  leased-send s (some l) udp = refl

  pub with_stream :
      (s : Session S)
      → Phase s
      → (s.send || s.recv) ≡ false
      → Phase (record s { send = true; recv = true })
  unfolding split_line
  with_stream s (unopened none_yet quiet free_lease has_relay empty) alone =
      commanding refl free_lease has_relay (rw empty (ground arith)) (ap split_line empty)
  with_stream s (commanding there lease_free has_relay small whole) alone =
      commanding refl lease_free has_relay small whole
  with_stream s (leasing l there held gone udp empty) alone = leasing l refl held gone udp empty

  pub recv-send : (s : Session S) → Phase s → s.recv ≡ true → s.send ≡ true
  recv-send s (unopened none_yet quiet free_lease has_relay empty) listening = cc
  recv-send s (commanding there lease_free has_relay small whole) listening = there
  recv-send s (leasing l there held gone udp empty) listening = there

  pub leased-send_lem : (s : Session S) → Phase s → is_some s.lease ≡ true → s.send ≡ true
  leased-send_lem s (unopened none_yet quiet free_lease has_relay empty) held = cc
  leased-send_lem s (commanding there lease_free has_relay small whole) held = there
  leased-send_lem s (leasing l there has gone udp empty) held = there

  pub without_recv : (s : Session S) → Phase s → Phase (record s { recv = false })
  without_recv s (unopened none_yet quiet free_lease has_relay empty) =
      unopened none_yet refl free_lease has_relay empty
  without_recv s (commanding there lease_free has_relay small whole) =
      commanding there lease_free has_relay small whole
  without_recv s (leasing l there held gone udp empty) = leasing l there held gone udp empty

module _ {S : Type 0} (P F : Session S → Type 0) where
  pub prefixed-Leaves :
      (e : List Effect) (x : Turn S × List Effect) → Leaves P F x → Leaves P F (x.0, e ++ x.1)
  prefixed-Leaves e (goes_on s, effects) h = h
  prefixed-Leaves e (fails x s, effects) h = h
  prefixed-Leaves e (panics, effects) h = absurd h
  prefixed-Leaves e (Turn.tires, effects) h = tt

  pub continue_with-Leaves :
      (Q : Session S → Type 0) (b : Bytes) (x : Turn S × List Effect)
      (k : Session S → Turn S × List Effect)
      → Leaves Q F x
      → Holds b x
      → ((t : Session S) → Q t → t.cmdbuf ≡ b → Leaves P F (k t))
      → Leaves P F (continue_with x k)
  continue_with-Leaves Q b (goes_on s, effects) k h holds next =
      prefixed-Leaves effects (k s) (next s h holds)
  continue_with-Leaves Q b (fails x s, effects) k h holds next = h
  continue_with-Leaves Q b (panics, effects) k h holds next = absurd h
  continue_with-Leaves Q b (Turn.tires, effects) k h holds next = tt

  pub if-Leaves :
      (b : Bool) (t u : Turn S) (e : List Effect)
      → Leaves P F (t, e)
      → Leaves P F (u, e)
      → Leaves P F ((if b then t else u), e)
  if-Leaves true t u e h k = h
  if-Leaves false t u e h k = k

-- A turn that fails leaves at least what there was.
module _ {S : Type 0} (P F : Session S → Type 0) (falls : (s : Session S) → P s → F s) where
  pub write_answer-Leaves :
      (s : Session S) (met : Met) (response : Bytes)
      → s.send ≡ true
      → P s
      → Leaves P F (write_answer s met response)
  write_answer-Leaves s met response there h =
      if_second (Leaves P F) (not s.send) _ _ (ap not there) (
        if_both (Leaves P F) (not met.response_written) _ _ (falls s h)
          (if_both (Leaves P F) (not met.newline_written) _ _ (falls s h) h))

  pub sent_on-Leaves :
      (s : Session S) (r : Result Delivery) → P s → r ≢ panic → Leaves P F (sent_on s r)
  sent_on-Leaves s (ok d) h n = h
  sent_on-Leaves s (err e) h n = falls s h
  sent_on-Leaves s panic h n = n refl

module _ {S : Type 0} where
  -- The same among any others.
  abbrev pub Shared : Rng S → Session S → Type 0
  Shared rng s = Phase s × ((others : List Lent) × Held (Reached rng) others s)

  abbrev pub Dropped : Rng S → Session S → Type 0
  Dropped rng s = (others : List Lent) × Held (Reached rng) others s

  -- The relay only speaks once a lease holds it, and others leave tables that clients reach, in which
  -- the session holds its lease.
  abbrev pub Possible : Rng S → Session S → Event S → Type 0
  Possible rng s (relayed bytes hears sends) = is_some s.lease ≡ true
  Possible rng s (elsewhere w) =
      (others : List Lent) × Held (Reached rng) others (record s { world = w })
  Possible rng s event = Unit

  -- Of the session that a turn goes on with.
  abbrev pub On : Turn S × List Effect → (Session S → Type 0) → Type 0
  On (goes_on s, effects) P = P s
  On (fails e s, effects) P = Unit
  On (panics, effects) P = Unit
  On (Turn.tires, effects) P = Unit

  -- Each event can happen when its turn comes.
  abbrev pub Plays : Buf → Rng S → (ℕ → Met) → Session S → List (Event S) → Type 0
  Plays buf rng meets s [] = Unit
  Plays buf rng meets s (event ∷ events) =
      Possible rng s event × On (step buf rng meets s event) (λ t. Plays buf rng meets t events)
