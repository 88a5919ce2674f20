-- ===== src/Stream/Turns.antt =====
-- src/webtransport/client.rs: lines, and what a turn does to the buffer.
use lwproxy.Base.{
  suc, ◌<◌, ◌≡◌, refl, sym, ◌∙◌, ap, Bool, not, List, [], ◌∷◌, ◌++◌, Option, none, some, Bool-cases,
  Option-cases, inl, inr, arith, append_assoc, length, Bytes,
}
use mathlib.Core.Path.{subst}
use lwproxy.Result.{if_both, Result, ok, err, panic}
use lwproxy.Lease.{Lease}
use lwproxy.Commands.{Outcome}
use lwproxy.Stream.{
  split_line, Met, Session, Effect, Turn, goes_on, fails, panics, tires, continue_with, leased,
  took, write_answer, carry_out, started,
}

-- A newline that is there stays the first one when more bytes come.
pub split_line-append :
    (a b cmd rest : Bytes)
    → split_line a ≡ some (cmd, rest)
    → split_line (a ++ b) ≡ some (cmd, rest ++ b)
unfolding split_line
split_line-append [] b cmd rest h = cc
split_line-append (x ∷ a) b cmd rest h = elim (Option-cases (split_line a)) [
  | inl nothing ↦ ground (arith, nothing)
  | inr (r, e) ↦ ground (arith, e, split_line-append a b r.0 r.1 e)
]

-- What is behind a newline is shorter.
pub split_line-shorter :
    (a cmd rest : Bytes) → split_line a ≡ some (cmd, rest) → length rest < length a
unfolding split_line
split_line-shorter [] cmd rest h = cc
split_line-shorter (x ∷ a) cmd rest h = elim (Option-cases (split_line a)) [
  | inl nothing ↦ ground (arith, nothing)
  | inr (r, e) ↦ ground (arith, e, split_line-shorter a r.0 r.1 e)
]

module _ {S : Type 0} where
  pub continue_with_assoc :
      (x : Turn S × List Effect) (f g : Session S → Turn S × List Effect)
      → continue_with (continue_with x f) g ≡ continue_with x (λ s. continue_with (f s) g)
  continue_with_assoc (goes_on s, effects) f g = grouped (f s)
    where
      grouped :
          (y : Turn S × List Effect)
          → continue_with (y.0, effects ++ y.1) g
            ≡ ((continue_with y g).0, effects ++ (continue_with y g).1)
      grouped (goes_on t, more) = rw append_assoc refl
      grouped (fails e t, more) = refl
      grouped (panics, more) = refl
      grouped (tires, more) = refl
  continue_with_assoc (fails e s, effects) f g = refl
  continue_with_assoc (panics, effects) f g = refl
  continue_with_assoc (tires, effects) f g = refl

  -- A session with more bytes in its buffer.
  abbrev pub with_more : Session S → Bytes → Session S
  with_more s b = record s { cmdbuf = s.cmdbuf ++ b }

  -- The same turn, with more bytes in the buffer of the session it leaves.
  abbrev pub later : Bytes → Turn S × List Effect → Turn S × List Effect
  later b (goes_on s, effects) = (goes_on (with_more s b), effects)
  later b (fails e s, effects) = (fails e (with_more s b), effects)
  later b (panics, effects) = (panics, effects)
  later b (tires, effects) = (tires, effects)

  pub leased-with_more :
      (s : Session S) (b : Bytes) (l : Option Lease) (udp : Bool)
      → leased (with_more s b) l udp ≡ with_more (leased s l udp) b
  leased-with_more s b none udp = refl
  leased-with_more s b (some l) udp = refl

  pub write_answer-with_more :
      (s : Session S) (b : Bytes) (met : Met) (response : Bytes)
      → write_answer (with_more s b) met response ≡ later b (write_answer s met response)
  write_answer-with_more s b met response = elim (Bool-cases s.send) [
    | inr missing ↦ rw missing refl
    | inl there ↦ elim (Bool-cases met.response_written) [
      | inr lost ↦ rw (there, lost) refl
      | inl first ↦ elim (Bool-cases met.newline_written) [
        | inr lost ↦ rw (there, first, lost) refl
        | inl second ↦ rw (there, first, second) refl
      ]
    ]
  ]

  pub before :
      (e : List Effect) (b : Bytes) (x : Turn S × List Effect)
      → later b (x.0, e ++ x.1) ≡ ((later b x).0, e ++ (later b x).1)
  before e b (goes_on s, effects) = refl
  before e b (fails x s, effects) = refl
  before e b (panics, effects) = refl
  before e b (tires, effects) = refl

  pub carry_out-with_more :
      (s : Session S) (b : Bytes) (met : Met) (r : Result (Option (Outcome S)))
      → carry_out (with_more s b) met r ≡ later b (carry_out s met r)
  carry_out-with_more s b met (err e) = refl
  carry_out-with_more s b met panic = refl
  carry_out-with_more s b met (ok none) = refl
  carry_out-with_more s b met (ok (some o)) =
      let s' = record s { relay_tx = o.relay; handled = suc s.handled; world = o.world } in
      let response = o.result.response in
      let same = leased-with_more s' b o.result.new_lease o.result.relay_udp in
      ap (λ x. (x.0, started o.started ++ x.1))
        (ap (λ t. write_answer t met response) same
          ∙ write_answer-with_more (took s o) b met response)
      ∙ sym (before (started o.started) b (write_answer (took s o) met response))

  -- A turn leaves the buffer as it is.
  abbrev pub Holds : Bytes → Turn S × List Effect → Type 0
  Holds b (goes_on s, effects) = s.cmdbuf ≡ b
  Holds b (fails e s, effects) = Unit
  Holds b (panics, effects) = Unit
  Holds b (tires, effects) = Unit

  -- A turn leaves the session as it is.
  abbrev pub Stays : Session S → Turn S × List Effect → Type 0
  Stays s (goes_on t, effects) = t ≡ s
  Stays s (fails e t, effects) = Unit
  Stays s (panics, effects) = Unit
  Stays s (tires, effects) = Unit

  pub leased-cmdbuf :
      (s : Session S) (l : Option Lease) (udp : Bool) → (leased s l udp).cmdbuf ≡ s.cmdbuf
  leased-cmdbuf s none udp = refl
  leased-cmdbuf s (some l) udp = refl

  pub write_answer-Holds :
      (s : Session S) (met : Met) (response : Bytes) → Holds s.cmdbuf (write_answer s met response)
  write_answer-Holds s met response = if_both (Holds s.cmdbuf) (not s.send) _ _ tt (
      if_both (Holds s.cmdbuf) (not met.response_written) _ _ tt
        (if_both (Holds s.cmdbuf) (not met.newline_written) _ _ tt refl))

  pub prefixed-Holds :
      (b : Bytes) (e : List Effect) (x : Turn S × List Effect) → Holds b x → Holds b (x.0, e ++ x.1)
  prefixed-Holds b e (goes_on s, effects) h = h
  prefixed-Holds b e (fails x s, effects) h = tt
  prefixed-Holds b e (panics, effects) h = tt
  prefixed-Holds b e (tires, effects) h = tt

  pub carry_out-Holds :
      (s : Session S) (met : Met) (r : Result (Option (Outcome S)))
      → Holds s.cmdbuf (carry_out s met r)
  carry_out-Holds s met (err e) = tt
  carry_out-Holds s met panic = tt
  carry_out-Holds s met (ok none) = tt
  carry_out-Holds s met (ok (some o)) =
      prefixed-Holds s.cmdbuf (started o.started) (write_answer (took s o) met o.result.response) (
        subst (λ b. Holds b (write_answer (took s o) met o.result.response))
          (leased-cmdbuf (record s { relay_tx = o.relay; handled = suc s.handled; world = o.world })
            o.result.new_lease o.result.relay_udp)
          (write_answer-Holds (took s o) met o.result.response))

  -- Two ways to go on that agree on sessions with that buffer.
  pub continue_with-cong :
      (b : Bytes) (x : Turn S × List Effect) (f g : Session S → Turn S × List Effect)
      → Holds b x
      → ((s : Session S) → s.cmdbuf ≡ b → f s ≡ g s)
      → continue_with x f ≡ continue_with x g
  continue_with-cong b (goes_on s, effects) f g h k =
      ap (λ (y : Turn S × List Effect). (y.0, effects ++ y.1)) (k s h)
  continue_with-cong b (fails e s, effects) f g h k = refl
  continue_with-cong b (panics, effects) f g h k = refl
  continue_with-cong b (tires, effects) f g h k = refl
