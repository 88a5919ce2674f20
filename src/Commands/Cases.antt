-- ===== src/Commands/Cases.antt =====
-- src/service/commands.rs: the ways through `handle_command`, for a statement on each of them.
use lwproxy.Base.{List, [], ◌∷◌, ◌++◌, Option, none, some, Bytes, length, leb, take}
use lwproxy.Result.{
  Result, ok, err, Error, ◌>>=◌, command_non_ascii, command_too_long, if_both, ensure_both,
  command_empty, command_unrecognized,
}
use lwproxy.Text.{is_ascii, strip_prefix, split_whitespace, text_eq}
use lwproxy.Code.{Rng, codes}
use lwproxy.Translate.{Sender}
use lwproxy.Commands.{
  Circumstances, World, Outcome, answer, proxy, bind, newaddr, dispatch, handle_command,
}

abbrev pub ponged : {S : Type 0} → World S → Option Sender → Bytes → Outcome S
ponged w relay_tx payload = record {
  result = answer (codes "PONG" ++ payload);
  relay = relay_tx;
  world = w;
  started = none;
}

abbrev pub one : {S : Type 0} → Result (Outcome S) → Result (Option (Outcome S))
one r = r >>= λ o. ok (some o)

module _ {S : Type 0} (rng : Rng S) (c : Circumstances) (w : World S) (relay_tx : Option Sender)
    (P : Result (Option (Outcome S)) → Type 0) (refused : (e : Error) → P (err e))
    (pong : (payload : Bytes) → P (ok (some (ponged w relay_tx payload))))
    (proxies : (args : List Bytes) → P (one (proxy c w relay_tx args)))
    (assigns : (args : List Bytes) → P (newaddr rng c w relay_tx args))
    (binds : (args : List Bytes) → P (one (bind c w relay_tx args))) where
  dispatch-cases : (tokens : List Bytes) → P (dispatch rng c w relay_tx tokens)
  unfolding dispatch
  dispatch-cases [] = refused command_empty
  dispatch-cases (verb ∷ args) = if_both P (text_eq verb (codes "PROXY")) _ _ (proxies args) (
      if_both P (text_eq verb (codes "NEWADDR")) _ _ (assigns args)
        (if_both P (text_eq verb (codes "BIND")) _ _ (binds args) (refused command_unrecognized)))

  pub handle_command-cases : (raw : Bytes) → P (handle_command rng c w relay_tx raw)
  unfolding handle_command
  handle_command-cases raw =
      ensure_both P (is_ascii raw) command_non_ascii _ (refused command_non_ascii) (
        ensure_both P (leb (length raw) 255) command_too_long _ (refused command_too_long)
          (ping (strip_prefix (codes "PING") raw)))
    where
      ping :
          (payload : Option Bytes)
          → P (elim payload [
            | some p ↦ ok (some (ponged w relay_tx p))
            | none ↦ dispatch rng c w relay_tx (take 6 (split_whitespace raw))
          ])
      ping (some p) = pong p
      ping none = dispatch-cases (take 6 (split_whitespace raw))
