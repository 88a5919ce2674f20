-- ===== src/Network/Bounds.antt =====
-- src/service/net/network.rs, `Assignment::binds`: the count stays far below its type's end.
use lwproxy.Base.{ℕ, ◌+◌, ◌^◌, ◌<◌, ◌≤◌, ◌≡◌, refl, ◌∙◌, ap, some, arith}
use lwproxy.Result.{ok}
use lwproxy.Code.{Rng, Passcode}
use lwproxy.Translate.{Sender, RouteKey}
use lwproxy.Network.{Assignment, assignment_of, Bound, bind}
use lwproxy.Network.Ports.{bound_ports-le}
use lwproxy.Network.Bind.{bind-IsBound}
use lwproxy.Network.Leases.{System, Reach, Reach-IsLeased}

module _ {S : Type 0} {rng : Rng S} where
  -- In every state that clients reach by asking for addresses, binding 16-bit ports and dropping
  -- leases, a bind of a 16-bit port that succeeds makes the count of binds of its address one more,
  -- without wrapping around: the count is at most 65536 then.
  pub bind-binds :
      (y : System) (now : ℕ) (p : Passcode) (port : ℕ) (relay egress : Sender) (b : Bound)
      → Reach rng y
      → port < 2 ^ 16
      → bind y.network now p port relay egress ≡ ok b
      → (a a' : Assignment) × (assignment_of y.network b.handler.key.0 ≡ some a)
        × (assignment_of b.network b.handler.key.0 ≡ some a')
        × (a'.binds ≡ a.binds + 1)
        × (a'.binds ≤ 65536)
  bind-binds y now p port relay egress b r small e =
      let v = (Reach-IsLeased r).consistent in
      let (address, w) = bind-IsBound y.network v now p port relay egress b small e in
      let (a, there, q) = v.issued p address w.owned in
      let after = w.assignment a there in
      let at : b.handler.key.0 ≡ address = ap (λ (k : RouteKey). k.0) w.key in
      (
        a,
        record { passcode = a.passcode; binds = a.binds + 1; touched = now },
        ap (assignment_of y.network) at ∙ there,
        ap (assignment_of b.network) at ∙ after,
        refl,
        omega (
          arith,
          w.consistent.counted address _ after,
          bound_ports-le b.network address w.consistent,
        ),
      )
