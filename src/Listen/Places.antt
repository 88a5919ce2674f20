-- ===== src/Listen/Places.antt =====
-- src/websocket/listener.rs, src/webtransport/listener.rs: what is true of a listener before and after
-- its start, and once its loop is over.
use mathlib.Core.Path.{subst}
use lwproxy.Base.{
  ◌≡◌, refl, sym, ◌∙◌, ap, Bool, true, false, Option, none, some, is_some, if◌then◌else◌, ◌⊎◌, inl,
  inr,
}
use lwproxy.Result.{Result, ok, err, panic, ok_inj, channel_closed}
use lwproxy.Endpoint.{
  Loop, socket_loop, stream_loop, RunnerHandle, SocketListener, start_socket, start_stream, stop,
  Listener, socket, stream, Place, start, runner_of, Start, starts, refuses_tls, refuses_bind,
}

abbrev pub loop_of : Listener → Loop
loop_of (socket l) = socket_loop l.tls
loop_of (stream l) = stream_loop l.cert

-- The same address and the same certificates.
abbrev pub started_as : Listener → Listener
started_as (socket l) = socket (record l { runner = some (record { stop = false; join = none }) })
started_as (stream l) = stream (record l { runner = some (record { stop = false; join = none }) })

abbrev pub is_ok {ℓ} : {A : Type ℓ} → Result A → Bool
is_ok (ok a) = true
is_ok (err e) = false
is_ok panic = false

-- Stopping a WebSocket listener succeeds exactly while its loop runs; the others have no `stop`.
abbrev pub StopsWell : Listener → Bool → Type 0
StopsWell (socket l) loops = is_ok (stop l loops) ≡ loops
StopsWell (stream l) loops = Unit

pub data Governs (place : Place) : Type 0 where
  -- Not started: there is no loop, and it can be started.
  idle :
      place.loop ≡ none
      → start place.listener starts
        ≡ ok (record { listener = started_as place.listener; loop = some (loop_of place.listener) })
      → (is_ok (start place.listener refuses_bind) ≡ false)
        × (is_ok (start place.listener refuses_tls) ≡ false)
      → Governs place
  -- Started: it cannot be started again, and is stopped well while its loop runs.
  begun :
      ((how : Start) → start place.listener how ≡ panic)
      → (place.loop ≡ none) ⊎ (place.loop ≡ some (loop_of place.listener))
      → StopsWell place.listener (is_some place.loop)
      → Governs place

-- How a place stands.
pub data Kept (place : Place) : Type 0 where
  unused : runner_of place.listener ≡ none → place.loop ≡ none → Kept place
  used :
      (h : RunnerHandle)
      → runner_of place.listener ≡ some h
      → (place.loop ≡ none) ⊎ (place.loop ≡ some (loop_of place.listener))
      → Kept place

abbrev started_place : Listener → Place
started_place l = record { listener = started_as l; loop = some (loop_of l) }

start-unused : (l : Listener) → runner_of l ≡ none → start l starts ≡ ok (started_place l)
unfolding start_socket start_stream
start-unused (socket l) e = rw e refl
start-unused (stream l) e = rw e refl

start-fails :
    (l : Listener)
    → runner_of l ≡ none
    → (is_ok (start l refuses_bind) ≡ false) × (is_ok (start l refuses_tls) ≡ false)
unfolding start_socket start_stream
start-fails (socket l) e = rw e (refl, refl)
start-fails (stream l) e = rw e (refl, refl)

start-used :
    (l : Listener) (h : RunnerHandle) → runner_of l ≡ some h → (how : Start) → start l how ≡ panic
unfolding start_socket start_stream
start-used (socket l) h e how = rw e refl
start-used (stream l) h e how = rw e refl

stop-unused : (l : SocketListener) (loops : Bool) → l.runner ≡ none → stop l loops ≡ ok l
unfolding stop
stop-unused l loops e =
    ap
      (λ (o : Option RunnerHandle). elim o [
        | none ↦ ok l
        | some handle ↦
            if loops
            then ok (record l { runner = some (record handle { stop = true }) })
            else err channel_closed
      ])
      e

stop-used :
    (l : SocketListener) (h : RunnerHandle) (loops : Bool)
    → l.runner ≡ some h
    → stop l loops ≡ (
        if loops
        then ok (record l { runner = some (record h { stop = true }) })
        else err channel_closed)
unfolding stop
stop-used l h loops e = rw e refl

used-StopsWell :
    (l : Listener) (loops : Bool) (h : RunnerHandle) → runner_of l ≡ some h → StopsWell l loops
used-StopsWell (socket l) false h e = ap is_ok (stop-used l h false e)
used-StopsWell (socket l) true h e = ap is_ok (stop-used l h true e)
used-StopsWell (stream l) loops h e = tt

pub Kept-Governs : (place : Place) → Kept place → Governs place
Kept-Governs place (unused e no_loop) =
    idle no_loop (start-unused place.listener e) (start-fails place.listener e)
Kept-Governs place (used h e loops) =
    begun (start-used place.listener h e) loops
      (used-StopsWell place.listener (is_some place.loop) h e)

-- Starting, stopping and the end of a loop.
pub start-Kept :
    (place new : Place) (how : Start) → Kept place → start place.listener how ≡ ok new → Kept new
start-Kept place new how (used h e loops) r = absurd (cc (start-used place.listener h e how, r))
start-Kept place new starts (unused e no_loop) r =
    subst Kept (ok_inj (sym (start-unused place.listener e) ∙ r)) (started-Kept place.listener)
  where
    started-Kept : (l : Listener) → Kept (started_place l)
    started-Kept (socket l) = used (record { stop = false; join = none }) refl (inr refl)
    started-Kept (stream l) = used (record { stop = false; join = none }) refl (inr refl)
start-Kept place new refuses_tls (unused e no_loop) r =
    absurd (cc ((start-fails place.listener e).1, ap is_ok r))
start-Kept place new refuses_bind (unused e no_loop) r =
    absurd (cc ((start-fails place.listener e).0, ap is_ok r))

pub stop-Kept :
    (l l' : SocketListener) (loop : Option Loop)
    → Kept (record { listener = socket l; loop = loop })
    → stop l (is_some loop) ≡ ok l'
    → Kept (record { listener = socket l'; loop = loop })
stop-Kept l l' loop (unused e no_loop) r =
    subst (λ (y : SocketListener). Kept (record { listener = socket y; loop = loop }))
      (ok_inj (sym (stop-unused l (is_some loop) e) ∙ r)) (unused e no_loop)
stop-Kept l l' none (used h e loops) r = absurd (cc (stop-used l h false e, r))
stop-Kept l l' (some x) (used h e loops) r =
    subst (λ (y : SocketListener). Kept (record { listener = socket y; loop = some x }))
      (ok_inj (sym (stop-used l h true e) ∙ r)) (used (record h { stop = true }) refl loops)

pub over-Kept :
    (l : Listener) (loop : Option Loop)
    → Kept (record { listener = l; loop = loop })
    → Kept (record { listener = l; loop = none })
over-Kept l loop (unused e no_loop) = unused e refl
over-Kept l loop (used h e loops) = used h e (inl refl)
