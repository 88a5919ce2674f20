-- ===== src/Network/Order.antt =====
-- Requests to the network in sequence, and that the order of the tables' entries does not show.
use lwproxy.Base.{ℕ, ◌<◌, ◌^◌, ◌≡◌, refl, ap, Bool, List, [], ◌∷◌, Option, none, some, All, Bytes}
use lwproxy.Result.{Result, ok, err, panic, Error}
use lwproxy.Wire.{Buf}
use lwproxy.Code.{Rng, Passcode}
use lwproxy.Translate.{RouteKey, Sender, Translator}
use lwproxy.Network.{NetworkState, assign, BindHandler, Bound, bind, unbind, Sent, send}
use lwproxy.Network.Inv.{Inv}
use lwproxy.Network.Assign.{assign-IsFreshlyAssigned}
use lwproxy.Network.Bind.{bind-IsBound}
use lwproxy.Network.Unbind.{unbind-IsReleased}
use lwproxy.Network.Views.{Alike, View, view, view-Alike}
use lwproxy.Network.Alike.{
  AssignsAlike, both_assign, both_tire, assign-AssignsAlike, BindsAlike, both_refuse, both_bind,
  bind-BindsAlike, unbind-Alike, send_alike,
}
use mathlib.Core.Quot

pub data Request : Type 0 where
  assigns : ℕ → ℕ → ℕ → ℕ → Request
  binds : ℕ → Passcode → ℕ → Sender → Sender → Request
  drops : ℕ → RouteKey → Request
  sends : BindHandler → Bytes → Bool → Request

pub data Answer : Type 0 where
  assigned : ℕ → Passcode → Answer
  -- No answer: the fuel is out, or the task unwinds.
  unanswered : Answer
  bound : BindHandler → Translator → Answer
  refused : Error → Answer
  dropped : Answer
  sent : Result (List Sent) → Answer

-- Ports are of 16 bits.
abbrev pub Fits : Request → Type 0
Fits (binds now p port relay egress) = port < 2 ^ 16
Fits request = Unit

module _ {S : Type 0} where
  -- What a request leaves behind; `none` without an answer.
  abbrev after_assign :
      Result (Option (ℕ × Passcode × NetworkState × S)) → Answer × Option (NetworkState × S)
  after_assign (ok (some (address, p, st, s))) = (assigned address p, some (st, s))
  after_assign other = (unanswered, none)

  abbrev after_bind : NetworkState → S → Result Bound → Answer × Option (NetworkState × S)
  after_bind st s (ok b) = (bound b.handler b.task, some (b.network, s))
  after_bind st s (err e) = (refused e, some (st, s))
  after_bind st s panic = (unanswered, none)

  abbrev further :
      (NetworkState → S → List Answer × Option (View × S))
      → Answer × Option (NetworkState × S)
      → List Answer × Option (View × S)
  further rest (answer, none) = (answer ∷ [], none)
  further rest (answer, some (st, s)) = let (later, end) = rest st s in (answer ∷ later, end)

  -- The same answer, and alike tables that agree.
  abbrev Matches : Answer × Option (NetworkState × S) → Answer × Option (NetworkState × S) → Type 0
  Matches (a, none) (b, none) = a ≡ b
  Matches (a, some (st, s)) (b, some (st', s')) =
      (a ≡ b) × Alike st st' × Inv st × Inv st' × (s ≡ s')
  Matches x y = ⊥

  -- The tables that it leaves agree.
  abbrev Agrees : Result (Option (ℕ × Passcode × NetworkState × S)) → Type 0
  Agrees r =
      (address : ℕ) (p : Passcode) (st : NetworkState) (s : S)
      → r ≡ ok (some (address, p, st, s))
      → Inv st

  assigned-Matches :
      (r r' : Result (Option (ℕ × Passcode × NetworkState × S)))
      → AssignsAlike r r'
      → Agrees r
      → Agrees r'
      → Matches (after_assign r) (after_assign r')
  assigned-Matches r r' (both_assign address p st st' s h) v v' =
      (refl, h, v address p st s refl, v' address p st' s refl, refl)
  assigned-Matches r r' both_tire v v' = refl

  bound-Matches :
      (st st' : NetworkState) (s : S)
      → Alike st st'
      → Inv st
      → Inv st'
      → (r r' : Result Bound) → BindsAlike r r'
      → ((b : Bound) → r ≡ ok b → Inv b.network)
      → ((b : Bound) → r' ≡ ok b → Inv b.network)
      → Matches (after_bind st s r) (after_bind st' s r')
  bound-Matches st st' s h v v' r r' (both_refuse e) w w' = (refl, h, v, v', refl)
  bound-Matches st st' s h v v' r r' (both_bind b b' alike handler task) w w' =
      (rw (handler, task) refl, alike, w b refl, w' b' refl, refl)

module _ {S : Type 0} (buf : Buf) (rng : Rng S) where
  abbrev pub serve : Request → NetworkState → S → Answer × Option (NetworkState × S)
  serve (assigns fuel tries now later) st s = after_assign (assign rng fuel tries now later st s)
  serve (binds now p port relay egress) st s = after_bind st s (bind st now p port relay egress)
  serve (drops now key) st s = (dropped, some (unbind st now key, s))
  serve (sends h raw listens) st s = (sent (send buf st h raw listens), some (st, s))

  -- The answers in turn, and what can be seen of the tables at the end.
  unfoldable pub answers : List Request → NetworkState → S → List Answer × Option (View × S)
  answers [] st s = ([], some (view st, s))
  answers (request ∷ requests) st s = further (λ st s. answers requests st s) (serve request st s)

  serve-Matches :
      (request : Request) (st st' : NetworkState) (s : S)
      → Fits request
      → Alike st st'
      → Inv st
      → Inv st'
      → Matches (serve request st s) (serve request st' s)
  serve-Matches (assigns fuel tries now later) st st' s fits h v v' =
      assigned-Matches _ _ (assign-AssignsAlike rng tries later fuel now st st' s v v' h)
        (λ a p t u e.
          (assign-IsFreshlyAssigned rng fuel tries now later st s {s' = u} v e).consistent)
        (λ a p t u e.
          (assign-IsFreshlyAssigned rng fuel tries now later st' s {s' = u} v' e).consistent)
  serve-Matches (binds now p port relay egress) st st' s fits h v v' =
      bound-Matches st st' s h v v' _ _ (bind-BindsAlike now p port relay egress st st' h)
        (λ b e. (bind-IsBound st v now p port relay egress b fits e).1.consistent)
        (λ b e. (bind-IsBound st' v' now p port relay egress b fits e).1.consistent)
  serve-Matches (drops now key) st st' s fits h v v' = (
    refl,
    unbind-Alike now key st st' h,
    (unbind-IsReleased st v now key.0 key.1).consistent,
    (unbind-IsReleased st' v' now key.0 key.1).consistent,
    refl,
  )
  serve-Matches (sends x raw listens) st st' s fits h v v' =
      (ap sent (send_alike buf st st' h x raw listens), h, v, v', refl)

  further-Matches :
      (rest : NetworkState → S → List Answer × Option (View × S))
      → ((st st' : NetworkState) (s : S) → Alike st st' → Inv st → Inv st' → rest st s ≡ rest st' s)
      → (x y : Answer × Option (NetworkState × S)) → Matches x y
      → further rest x ≡ further rest y
  further-Matches rest same (a, none) (b, none) h = ap (λ x. (x ∷ [], none)) h
  further-Matches rest same (a, none) (b, some (st', s')) h = absurd h
  further-Matches rest same (a, some (st, s)) (b, none) h = absurd h
  further-Matches rest same (a, some (st, s)) (b, some (st', s')) (e, alike, v, v', seed) =
      rw (e, ← seed, same st st' s alike v v') refl

  Alike-answers :
      (requests : List Request) (st st' : NetworkState) (s : S)
      → All Fits requests
      → Alike st st'
      → Inv st
      → Inv st'
      → answers requests st s ≡ answers requests st' s
  unfolding answers
  Alike-answers [] st st' s fits h v v' = ap (λ x. ([], some (x, s))) (Quot.sound h)
  Alike-answers (request ∷ requests) st st' s fits h v v' =
      further-Matches (answers requests) (λ st st' s. Alike-answers requests st st' s fits.1) _ _
        (serve-Matches request st st' s fits.0 h v v')

  -- Take two states of the tables that have the same view: every look-up answers the same, while
  -- the order of the entries, which the standard library leaves open, may differ. If in each the
  -- tables agree, any sequence of requests for addresses, to bind 16-bit ports, to drop leases and
  -- to send, with the same draws and clock, is answered the same from both and ends in the same
  -- view; so the order in which `expire` iterates over the table never shows.
  pub view-answers :
      (requests : List Request) (st st' : NetworkState) (s : S)
      → All Fits requests
      → view st ≡ view st'
      → Inv st
      → Inv st'
      → answers requests st s ≡ answers requests st' s
  view-answers requests st st' s fits e = Alike-answers requests st st' s fits (view-Alike st st' e)
