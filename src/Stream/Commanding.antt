-- ===== src/Stream/Commanding.antt =====
-- src/webtransport/client.rs: what a command leaves of a session.
use mathlib.Core.Path.{subst}
use lwproxy.Base.{
  ℕ, suc, ◌≡◌, refl, sym, ap, ◌∙◌, Bool, true, List, ◌++◌, Option, none, some, Bytes,
}
use lwproxy.Result.{Result, ok}
use lwproxy.Wire.{Buf}
use lwproxy.Code.{Rng}
use lwproxy.Lease.{Lease}
use lwproxy.Commands.{Outcome, handle_command}
use lwproxy.Commands.Ends.{CommandEnds, refuses, answers, leases, handle_command-CommandEnds}
use lwproxy.Network.Leases.{Lent}
use lwproxy.Commands.Refines.{port_leases, Closed}
use lwproxy.Stream.{Met, Session, leased, took, carry_out, started, command}
use lwproxy.Commands.{World}
use lwproxy.Stream.Phases.{
  Held, Between, free, taken, Working, Leaves, prefixed-Leaves, write_answer-Leaves, leased-send,
}

module _ {S : Type 0} (R : World S → List Lent → Type 0) (others : List Lent) where
  leased-Held :
      (s : Session S) (l : Option Lease) (udp : Bool)
      → s.lease ≡ none
      → R s.world (port_leases s.relay_rx l ++ others)
      → Held R others (leased s l udp)
  leased-Held s none udp held h =
      subst (λ m. R s.world (port_leases s.relay_rx m ++ others)) (sym held) h
  leased-Held s (some l) udp held h = h

  took-Held :
      (s : Session S) (o : Outcome S)
      → s.lease ≡ none
      → R o.world (port_leases s.relay_rx o.result.new_lease ++ others)
      → Held R others (took s o)
  took-Held s o held h =
      leased-Held (record s { relay_tx = o.relay; handled = suc s.handled; world = o.world })
        o.result.new_lease o.result.relay_udp held h

  carry_out-Leaves :
      (s : Session S) (met : Met) (r : Result (Option (Outcome S)))
      → s.send ≡ true
      → s.lease ≡ none
      → s.relay_tx ≡ some s.relay_rx
      → CommandEnds met.circumstances s.relay_tx r
      → Held R others s
      → ((o : Outcome S)
          → r ≡ ok (some o)
          → R o.world (port_leases s.relay_rx o.result.new_lease ++ others))
      → Leaves (Working R others) (Held R others) (carry_out s met r)
  carry_out-Leaves s met r there held has_relay (refuses e p) here reached = rw p here
  carry_out-Leaves s met r there held has_relay (CommandEnds.tires p) here reached = rw p tt
  carry_out-Leaves s met r there held has_relay (answers o p none_given udp kept idle) here
        reached =
      let s' = record s { relay_tx = o.relay; handled = suc s.handled; world = o.world } in
      let between : Between (took s o) =
        subst (λ l. Between (leased s' l o.result.relay_udp)) (sym none_given)
          (free there held (kept ∙ has_relay)) in
      rw p (
        prefixed-Leaves (Working R others) (Held R others) (started o.started) _ (
          write_answer-Leaves (Working R others) (Held R others) (λ t h. h.1) (took s o) met
            o.result.response (leased-send s' o.result.new_lease o.result.relay_udp ∙ there)
            (between, took-Held s o held (reached o p))))
  carry_out-Leaves s met r there held has_relay
        (leases o l relay' task p had given udp gone running serves) here reached =
      let s' = record s { relay_tx = o.relay; handled = suc s.handled; world = o.world } in
      let between : Between (took s o) =
        subst (λ m. Between (leased s' m o.result.relay_udp)) (sym given)
          (taken l there refl gone udp) in
      rw p (
        prefixed-Leaves (Working R others) (Held R others) (started o.started) _ (
          write_answer-Leaves (Working R others) (Held R others) (λ t h. h.1) (took s o) met
            o.result.response (leased-send s' o.result.new_lease o.result.relay_udp ∙ there)
            (between, took-Held s o held (reached o p))))

  free-Held : (s : Session S) → s.lease ≡ none → Held R others s → R s.world others
  free-Held s held h = subst (λ l. R s.world (port_leases s.relay_rx l ++ others)) held h

  pub command-Leaves :
      (buf : Buf) (rng : Rng S) (meets : ℕ → Met) (closed : Closed rng R) (s : Session S)
      (cmd : Bytes)
      → s.send ≡ true
      → s.lease ≡ none
      → s.relay_tx ≡ some s.relay_rx
      → Held R others s
      → Leaves (Working R others) (Held R others) (command buf rng meets s cmd)
  command-Leaves buf rng meets closed s cmd there held has_relay here =
      let c = (meets s.handled).circumstances in
      carry_out-Leaves s (meets s.handled) _ there held has_relay
        (handle_command-CommandEnds rng c s.world s.relay_tx cmd) here
        (λ o h.
          closed c s.world others s.relay_rx cmd o (free-Held s held here)
            (ap (λ r. handle_command rng c s.world r cmd) (sym has_relay) ∙ h))
