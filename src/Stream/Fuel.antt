-- ===== src/Stream/Fuel.antt =====
-- src/webtransport/client.rs: the loop over the commands and its fuel.
use lwproxy.Base.{
  ℕ, zero, suc, ◌<◌, ◌≡◌, refl, ap, Bool, List, Option, none, some, arith, length, Bytes,
}
use lwproxy.Wire.{Buf}
use lwproxy.Code.{Rng}
use lwproxy.Lease.{Lease}
use lwproxy.Stream.{split_line, Met, Session, Effect, Turn, command, round, commands}
use lwproxy.Stream.Turns.{split_line-shorter, carry_out-Holds, continue_with-cong}

module _ {S : Type 0} (buf : Buf) (rng : Rng S) (meets : ℕ → Met) (listens : Bool) where
  round-cong :
      (s : Session S) (l : Option Lease) (line : Option (Bytes × Bytes))
      (f g : Session S → Turn S × List Effect)
      → split_line s.cmdbuf ≡ line
      → ((t : Session S) → length t.cmdbuf < length s.cmdbuf → f t ≡ g t)
      → round buf rng meets f listens s l line ≡ round buf rng meets g listens s l line
  round-cong s (some l) line f g e k = refl
  round-cong s none none f g e k = refl
  round-cong s none (some (cmd, rest)) f g e k =
      continue_with-cong rest (command buf rng meets (record s { cmdbuf = rest }) cmd) f g
        (carry_out-Holds (record s { cmdbuf = rest }) (meets s.handled) _)
        (λ t holds. k t (omega (arith, split_line-shorter s.cmdbuf cmd rest e, ap length holds)))

  -- More fuel than the bytes held makes no difference.
  commands_enough :
      (f g : ℕ) (s : Session S)
      → length s.cmdbuf < f
      → length s.cmdbuf < g
      → commands buf rng meets f listens s ≡ commands buf rng meets g listens s
  unfolding commands
  commands_enough zero g s h k = absurd (omega arith)
  commands_enough (suc f) zero s h k = absurd (omega arith)
  commands_enough (suc f) (suc g) s h k =
      round-cong s s.lease (split_line s.cmdbuf) (λ t. commands buf rng meets f listens t)
        (λ t. commands buf rng meets g listens t) refl
        (λ t less. commands_enough f g t (omega arith) (omega arith))

  -- The loop with the fuel that `handle_data` gives.
  abbrev pub all_commands : Session S → Turn S × List Effect
  all_commands s = commands buf rng meets (suc (length s.cmdbuf)) listens s

  -- The loop, without its fuel.
  pub all_commands_lem :
      (s : Session S)
      → all_commands s ≡ round buf rng meets all_commands listens s s.lease (split_line s.cmdbuf)
  unfolding commands
  all_commands_lem s =
      round-cong s s.lease (split_line s.cmdbuf)
        (λ t. commands buf rng meets (length s.cmdbuf) listens t) all_commands refl
        (λ t less. commands_enough (length s.cmdbuf) (suc (length t.cmdbuf)) t less (omega arith))
