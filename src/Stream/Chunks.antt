-- ===== src/Stream/Chunks.antt =====
-- src/webtransport/client.rs: commands that arrive in pieces.
use lwproxy.Base.{
  ℕ, zero, suc, ◌<◌, ◌≡◌, refl, sym, ◌∙◌, ap, Bool, List, [], ◌++◌, Option, none, some, is_some,
  Bool-cases, inl, inr, arith, append_assoc, length, Bytes, if◌then◌else◌, leb, is_empty,
}
use mathlib.Core.Path.{subst}
use lwproxy.Result.{if_both, Result, ok, err, panic}
use lwproxy.Wire.{Buf}
use lwproxy.Code.{Rng}
use lwproxy.Lease
use lwproxy.Lease.{Lease, Delivery}
use lwproxy.Commands.{max_command_size}
use lwproxy.Stream.{
  split_line, Met, Session, Effect, Turn, goes_on, fails, panics, tires, continue_with, sent_on,
  send_to, relay_stream, command, round, handle_data,
}
use lwproxy.Stream.Turns.{
  split_line-append, split_line-shorter, with_more, later, carry_out-with_more, Holds, Stays,
  carry_out-Holds,
}
use lwproxy.Stream.Fuel.{all_commands, all_commands_lem}

module _ {S : Type 0} (buf : Buf) (rng : Rng S) (meets : ℕ → Met) (listens : Bool) where
  abbrev all : Session S → Turn S × List Effect
  all = all_commands buf rng meets listens

  stream-Stays : (s : Session S) (bytes : Bytes) → Stays s (relay_stream buf s bytes listens)
  unfolding relay_stream
  stream-Stays s bytes =
      if_both (Stays s) (is_empty bytes) _ _ refl
        (if_both (Stays s) s.relay_udp _ _ tt (sent s.lease))
    where
      delivered : (r : Result Delivery) → Stays s (sent_on s r)
      delivered (ok d) = refl
      delivered (err e) = tt
      delivered panic = tt

      sent : (l : Option Lease) → Stays s (send_to buf s l bytes listens)
      sent none = tt
      sent (some l) = delivered (Lease.send buf s.world.service.network l bytes listens)

  module _ (s s1 : Session S) (e1 : List Effect) (b : Bytes) (free : s1.lease ≡ none) where
    abbrev more : Session S → Turn S × List Effect
    more t = all (with_more t b)

    abbrev Continues : Session S → Type 0
    Continues t =
        (e : List Effect) → all t ≡ (goes_on s1, e) → more t ≡ continue_with (goes_on s1, e) more

    append-turn :
        (x : Turn S × List Effect) (rest : Bytes)
        → Holds rest x
        → ((t : Session S) → t.cmdbuf ≡ rest → Continues t)
        → continue_with x all ≡ (goes_on s1, e1)
        → continue_with (later b x) all ≡ continue_with (goes_on s1, e1) more
    append-turn (goes_on t, effects) rest holds ih h =
        let y = all t in
        let ended : y ≡ (goes_on s1, y.1) = ap (λ (z : Turn S × List Effect). (z.0, y.1)) h in
        ap (λ (z : Turn S × List Effect). (z.0, effects ++ z.1)) (ih t holds y.1 ended)
        ∙ ap (λ e. ((more s1).0, e))
            (sym (append_assoc effects y.1 (more s1).1)
              ∙ ap (λ (z : Turn S × List Effect). z.1 ++ (more s1).1) h)
    append-turn (fails x t, effects) rest holds ih h = cc
    append-turn (panics, effects) rest holds ih h = cc
    append-turn (tires, effects) rest holds ih h = cc

    append-round :
        (l : Option Lease) (line : Option (Bytes × Bytes))
        → s.lease ≡ l
        → split_line s.cmdbuf ≡ line
        → ((t : Session S) → length t.cmdbuf < length s.cmdbuf → Continues t)
        → round buf rng meets all listens s l line ≡ (goes_on s1, e1)
        → round buf rng meets all listens (with_more s b) l (split_line (s.cmdbuf ++ b))
          ≡ continue_with (goes_on s1, e1) more
    append-round (some l) line held e ih h =
        let same : s1 ≡ record s { cmdbuf = [] } =
          subst (Stays (record s { cmdbuf = [] })) h
            (stream-Stays (record s { cmdbuf = [] }) s.cmdbuf) in
        absurd (cc (sym held ∙ sym (ap (λ t. t.lease) same) ∙ free))
    append-round none none held e ih h =
        elim (Bool-cases (leb max_command_size (length s.cmdbuf))) [
          | inl large ↦ absurd (cc (rw large at h))
          | inr fits ↦
              ap
                (λ l.
                  round buf rng meets all listens (with_more s b) l (split_line (s.cmdbuf ++ b)))
                (sym held)
              ∙ sym (all_commands_lem buf rng meets listens (with_more s b))
              ∙ ap (λ x. continue_with x more) (rw fits at h)
        ]
    append-round none (some (cmd, rest)) held e ih h =
        let s' = record s { cmdbuf = rest } in
        let x = command buf rng meets s' cmd in
        let shorter = split_line-shorter s.cmdbuf cmd rest e in
        ap (λ line. round buf rng meets all listens (with_more s b) none line)
          (split_line-append s.cmdbuf b cmd rest e)
        ∙ ap (λ y. continue_with y all) (carry_out-with_more s' b (meets s.handled) _)
        ∙ append-turn x rest (carry_out-Holds s' (meets s.handled) _)
            (λ t holds. ih t (omega (arith, shorter, ap length holds))) h

  all_commands-append :
      (n : ℕ) (s s1 : Session S) (e1 : List Effect) (b : Bytes)
      → length s.cmdbuf < n
      → all s ≡ (goes_on s1, e1)
      → s1.lease ≡ none
      → all (with_more s b) ≡ continue_with (goes_on s1, e1) (λ t. all (with_more t b))
  all_commands-append zero s s1 e1 b small e free = absurd (omega arith)
  all_commands-append (suc n) s s1 e1 b small e free =
      all_commands_lem buf rng meets listens (with_more s b)
      ∙ append-round s s1 e1 b free s.lease (split_line s.cmdbuf) refl refl
          (λ t less e' h. all_commands-append n t s1 e' b (omega arith) h free)
          (sym (all_commands_lem buf rng meets listens s) ∙ e)

  handle_data-free :
      (s : Session S) (bytes : Bytes)
      → s.lease ≡ none
      → handle_data buf rng meets s bytes listens ≡ all (with_more s bytes)
  unfolding handle_data
  handle_data-free s bytes held =
      ap (λ o. if is_some o then relay_stream buf s bytes listens else all (with_more s bytes)) held

  -- Before its lease, it does not matter how the bytes of a WebTransport stream are cut: if
  -- handling a first piece goes on without a lease, handling it joined with a second piece does
  -- what handling one and then the other does, with the same effects in the same order.
  pub handle_data-append :
      (s s1 : Session S) (e1 : List Effect) (d1 d2 : Bytes)
      → s.lease ≡ none
      → handle_data buf rng meets s d1 listens ≡ (goes_on s1, e1)
      → s1.lease ≡ none
      → handle_data buf rng meets s (d1 ++ d2) listens
        ≡ continue_with (goes_on s1, e1) (λ t. handle_data buf rng meets t d2 listens)
  handle_data-append s s1 e1 d1 d2 held h free =
      let s' = with_more s d1 in
      handle_data-free s (d1 ++ d2) held
      ∙ ap (λ c. all (record s { cmdbuf = c })) (sym (append_assoc s.cmdbuf d1 d2))
      ∙ all_commands-append (suc (length s'.cmdbuf)) s' s1 e1 d2 (omega arith)
          (sym (handle_data-free s d1 held) ∙ h) free
      ∙ ap (λ (z : Turn S × List Effect). (z.0, e1 ++ z.1)) (sym (handle_data-free s1 d2 free))
