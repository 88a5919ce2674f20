-- ===== src/Connect/Chunks.antt =====
-- What a client sends in pieces, before its header is whole and after.
use lwproxy.Base.{
  ◌≡◌, refl, sym, ◌∙◌, ap, true, false, List, [], ◌∷◌, ◌++◌, map, none, some, if◌then◌else◌, Bytes,
  is_empty, Bool-cases, inl, inr, append_assoc, append-nil,
}
use mathlib.Core.Bool.{false≢true}
use lwproxy.Result.{ok}
use lwproxy.Text.{contains_text}
use lwproxy.Wire.{Buf}
use lwproxy.Connect.{
  ConnectHeader, header_complete, parse_header, Tunnel, start, Answers, Event, from_client,
  continue_with, connect, write_remote, to_client, goes_on, step, run, success_reply, establish,
  greet,
}
use lwproxy.Connect.Headers.{header_complete-append, parse_header-splits}

abbrev pub waiting : Bytes → Tunnel
waiting b = record { buffer = some b; conn_read = false; conn_write = false }

abbrev pub connected : Tunnel
connected = record { buffer = none; conn_read = true; conn_write = true }

abbrev pub fine : Answers
fine = record { connects = true; writes = true; relays = true }

abbrev pub client : Bytes × Answers → Event
client (b, a) = from_client b a

abbrev pub joined : List (Bytes × Answers) → Bytes
joined [] = []
joined ((b, a) ∷ chunks) = b ++ joined chunks

module _ (buf : Buf) (allowed_hosts : List Bytes) where
  step-waiting :
      (b c : Bytes) (a : Answers)
      → step buf allowed_hosts (waiting b) (from_client c a) ≡ (
          if header_complete (b ++ c)
          then establish allowed_hosts (parse_header (b ++ c)) a
          else (goes_on (waiting (b ++ c)), []))
  unfolding step
  step-waiting b c a = rw buf.put_slice_lem refl

  pub run-waiting :
      (chunks : List (Bytes × Answers)) (b : Bytes) (events : List Event)
      → header_complete (b ++ joined chunks) ≡ false
      → run buf allowed_hosts (waiting b) (map client chunks ++ events)
        ≡ run buf allowed_hosts (waiting (b ++ joined chunks)) events
  unfolding run
  run-waiting [] b events h = rw append-nil refl
  run-waiting ((c, a) ∷ chunks) b events h = elim (Bool-cases (header_complete (b ++ c))) [
    | inl whole ↦ absurd (
        false≢true
          (sym h ∙ (rw append_assoc at (header_complete-append (b ++ c) (joined chunks) whole))))
    | inr not_yet ↦
        rw (step-waiting b c a, not_yet)
          (rw append_assoc at (run-waiting chunks (b ++ c) events (rw append_assoc h)))
  ]

  -- It does not matter in how many pieces a header arrives: pieces without a blank line in what
  -- they join to, and one more piece, do what all of it in one piece does, and so does whatever
  -- comes later.
  pub run-in_chunks :
      (chunks : List (Bytes × Answers)) (c : Bytes) (a : Answers) (events : List Event)
      → header_complete (joined chunks) ≡ false
      → run buf allowed_hosts start (map client chunks ++ (from_client c a ∷ events))
        ≡ run buf allowed_hosts start (from_client (joined chunks ++ c) a ∷ events)
  unfolding run
  run-in_chunks chunks c a events h =
      run-waiting chunks [] (from_client c a ∷ events) h
      ∙ ap (λ x. continue_with x (λ t. run buf allowed_hosts t events))
          (step-waiting (joined chunks) c a ∙ sym (step-waiting [] (joined chunks ++ c) a))

  run-forwards :
      (chunks : List Bytes)
      → run buf allowed_hosts connected (map (λ b. from_client b fine) chunks)
        ≡ (goes_on connected, map write_remote chunks)
  unfolding run step
  run-forwards [] = refl
  run-forwards (b ∷ chunks) = rw (run-forwards chunks) refl

  -- For a header that parses with an allowed host, when connections, writes and the relay work, the
  -- proxy connects to the host and port of the header once, writes the bytes behind the header if
  -- there are any, tells the client, and then writes each further piece in order; the tunnel stays
  -- up.
  pub run-connects :
      (whole : Bytes) (h : ConnectHeader) (remainder : Bytes) (chunks : List Bytes)
      → parse_header whole ≡ ok (h, remainder)
      → contains_text allowed_hosts h.host ≡ true
      → run buf allowed_hosts start (from_client whole fine ∷ map (λ b. from_client b fine) chunks)
        ≡ (
          goes_on connected,
          connect h.host h.port ∷ (if is_empty remainder then [] else write_remote remainder ∷ [])
              ++ (to_client success_reply ∷ map write_remote chunks),
        )
  unfolding run
  run-connects whole h remainder chunks e allowed =
      let (header, split, ascii, small, complete) = parse_header-splits whole h remainder e in
      rw (step-waiting [] whole fine, complete, e, allowed) (greeted remainder)
    where
      greeted :
          (r : Bytes)
          → continue_with
              ((greet r fine).0, connect h.host h.port ∷ (greet r fine).1)
              (λ t. run buf allowed_hosts t (map (λ b. from_client b fine) chunks))
            ≡ (
              goes_on connected,
              connect h.host h.port ∷ (if is_empty r then [] else write_remote r ∷ [])
                  ++ (to_client success_reply ∷ map write_remote chunks),
            )
      greeted [] = rw (run-forwards chunks) refl
      greeted (x ∷ r) = rw (run-forwards chunks) refl
