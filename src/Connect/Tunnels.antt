-- ===== src/Connect/Tunnels.antt =====
-- The life of a tunnel: which hosts are reached, and that it does not matter how a header arrives.
use lwproxy.Base.{
  ◌≡◌, refl, Bool, true, false, List, [], ◌∷◌, Option, none, some, if◌then◌else◌, Bytes, All,
  All-append, is_empty, Bool-cases, inl, inr,
}
use lwproxy.Result.{Result, ok, err, panic}
use lwproxy.Text.{contains_text}
use lwproxy.Wire.{Buf}
use lwproxy.Connect.{
  ConnectHeader, header_complete, parse_header, Tunnel, Answers, Event, from_remote, from_client,
  client_gone, continue_with, Effect, connect, write_remote, to_client, Turn, goes_on, ends, relay,
  greet, establish, step, run,
}

-- A connection is made only to a host that is allowed.
abbrev pub IsAllowed : List Bytes → Effect → Type 0
IsAllowed allowed_hosts (connect host port) = contains_text allowed_hosts host ≡ true
IsAllowed allowed_hosts (write_remote b) = Unit
IsAllowed allowed_hosts (to_client b) = Unit

module _ (allowed_hosts : List Bytes) where
  greet-IsAllowed :
      (remainder : Bytes) (a : Answers) → All (IsAllowed allowed_hosts) (greet remainder a).1
  greet-IsAllowed [] a = (tt, tt)
  greet-IsAllowed (c ∷ remainder) a = elim (Bool-cases a.writes) [
    | inl w ↦ rw w (tt, (tt, tt))
    | inr w ↦ rw w (tt, tt)
  ]

  establish-IsAllowed :
      (r : Result (ConnectHeader × Bytes)) (a : Answers)
      → All (IsAllowed allowed_hosts) (establish allowed_hosts r a).1
  establish-IsAllowed (ok (h, remainder)) a =
      elim (Bool-cases (contains_text allowed_hosts h.host)) [
        | inl allowed ↦ elim (Bool-cases a.connects) [
          | inl c ↦ rw (allowed, c) (allowed, greet-IsAllowed remainder a)
          | inr c ↦ rw (allowed, c) (allowed, tt)
        ]
        | inr refused ↦ rw refused tt
      ]
  establish-IsAllowed (err e) a = tt
  establish-IsAllowed panic a = tt

relay-All {κ} :
    (P : Effect → Type κ) (t : Tunnel) (b : Bytes) (a : Answers)
    → P (to_client b)
    → All P (relay t b a).1
relay-All P t b a h = (h, tt)

continue_with-All {κ} :
    (P : Effect → Type κ) (x : Turn × List Effect) (rest : Tunnel → Turn × List Effect)
    → All P x.1
    → ((t : Tunnel) → All P (rest t).1)
    → All P (continue_with x rest).1
continue_with-All P (goes_on t, effects) rest h k = All-append P effects (rest t).1 h (k t)
continue_with-All P (ends r, effects) rest h k = h

if-All {κ} :
    (P : Effect → Type κ) (b : Bool) (x y : Turn × List Effect)
    → All P x.1
    → All P y.1
    → All P (if b then x else y).1
if-All P true x y h k = h
if-All P false x y h k = k

module _ (buf : Buf) (allowed_hosts : List Bytes) where
  pour-IsAllowed :
      (t : Tunnel) (b : Bytes) (a : Answers) (o : Option Bytes)
      → t.buffer ≡ o
      → All (IsAllowed allowed_hosts) (step buf allowed_hosts t (from_client b a)).1
  unfolding step
  pour-IsAllowed t b a none h = if-All _ t.conn_write _ _ (tt, tt) (rw h tt)
  pour-IsAllowed t b a (some held) h =
      let filled = buf.put_slice held b in
      if-All _ t.conn_write _ _ (tt, tt)
        (rw h (
          if-All _ (header_complete filled) _ _
            (establish-IsAllowed allowed_hosts (parse_header filled) a) tt))

  step-IsAllowed :
      (t : Tunnel) (e : Event) → All (IsAllowed allowed_hosts) (step buf allowed_hosts t e).1
  unfolding step
  step-IsAllowed t (from_remote none a) = if-All _ t.conn_read _ _ tt tt
  step-IsAllowed t (from_remote (some b) a) =
      if-All _ t.conn_read _ _ (if-All _ (is_empty b) _ _ tt (tt, tt)) tt
  step-IsAllowed t client_gone = tt
  step-IsAllowed t (from_client b a) = pour-IsAllowed t b a t.buffer refl

  -- From any state and for any events in any order, with any answers of connections and the relay,
  -- the CONNECT proxy connects only to hosts that the settings allow.
  pub run-IsAllowed :
      (t : Tunnel) (events : List Event)
      → All (IsAllowed allowed_hosts) (run buf allowed_hosts t events).1
  unfolding run
  run-IsAllowed t [] = tt
  run-IsAllowed t (e ∷ events) =
      continue_with-All _ (step buf allowed_hosts t e) _ (step-IsAllowed t e)
        (λ t'. run-IsAllowed t' events)
