-- ===== src/Proxy/Moves.antt =====
-- One client's turn, removal or drop of its lease, among the other clients.
use mathlib.Core.Path.{subst}
use lwproxy.Base.{
  ◌+◌, All-middle, ℕ, ◌≤◌, ◌≡◌, sym, ◌∙◌, ap, List, [], ◌∷◌, ◌++◌, Option, arith, All, All-append,
}
use lwproxy.Result.{ok}
use lwproxy.Translate.{Sender}
use lwproxy.Lease.{Lease}
use lwproxy.Network.Leases.{LeadsBack}
use lwproxy.Service.{ProxyClientHandle}
use lwproxy.Commands.{World}
use lwproxy.Proxy.{Stage, ended, removed, Client, Proxy, remove}
use lwproxy.Proxy.{reading, readers}
use lwproxy.Proxy.Readers.{readers-middle}
use lwproxy.Proxy.Counts.{
  leases_of, leases_of-append, handle_of, handles_of, handles_of-append, one_first,
  leases_on-one_first, one_first-all,
}
use lwproxy.Proxy.Sound.{IsFine, IsSound, others, regroup, Stands, Settled, middle-Stands}
use lwproxy.Proxy.Arrivals.{Tabled, Leased, Tabled-Stands, remove-IsSound}

-- One client moves, among the others.
module _ {S : Type 0} (n : ℕ) (p : Proxy S) (before : List (Client S)) (h : ProxyClientHandle)
    (stage : Stage S) (after : List (Client S)) (v : IsSound n p)
    (e : p.clients ≡ before ++ (record { handle = h; stage = stage } ∷ after)) where
  rest_fine :
      All (λ (c : Client S). IsFine c.stage) before × All (λ (c : Client S). IsFine c.stage) after
  rest_fine =
      let (fb, fc, fa) =
        All-middle (λ (c : Client S). IsFine c.stage) before (record { handle = h; stage = stage })
          after (subst (All (λ (c : Client S). IsFine c.stage)) e v.fine) in
      (fb, fa)

  handles_first :
      handles_of p.clients ≡ handles_of before ++ (handle_of h stage ++ handles_of after)
  handles_first =
      ap handles_of e ∙ handles_of-append before (record { handle = h; stage = stage } ∷ after)

  pub own_reading : (r : Sender) → reading r stage + readers r (before ++ after) ≤ 1
  own_reading r = omega (
    arith,
    v.apart r,
    ap (readers r) e,
    readers-middle r before (record { handle = h; stage = stage }) after,
  )

  -- Put together again.
  rebuilt :
      (stage' : Stage S) (w : World S)
      → IsFine stage'
      → Tabled n w (handles_of before ++ (handle_of h stage' ++ handles_of after))
      → Leased w (one_first stage' before after)
      → ((r : Sender) → reading r stage' + readers r (before ++ after) ≤ 1)
      → IsSound n (record {
        world = w;
        clients = before ++ (record { handle = h; stage = stage' } ∷ after);
      })
  rebuilt stage' w fine table leased apart =
      let c : Client S = record { handle = h; stage = stage' } in
      let (fb, fa) = rest_fine in
      record {
        table = subst (Tabled n w) (sym (handles_of-append before (c ∷ after))) table;
        leased =
            regroup w.service.network (one_first stage' before after)
              (leases_of (before ++ (c ∷ after))) (λ k. sym (leases_on-one_first k before after c))
              (one_first-all (LeadsBack w.service.network) before after c) leased;
        fine = All-append (λ (x : Client S). IsFine x.stage) before (c ∷ after) fb (fine, fa);
        apart = λ r. omega (arith, readers-middle r before c after, apart r);
      }

  pub moved-IsSound :
      (stage' : Stage S) (w : World S)
      → handle_of h stage ≡ h ∷ []
      → Settled p.world.service (others before after) h (stage', w)
      → ((r : Sender) → reading r stage' + readers r (before ++ after) ≤ 1)
      → IsSound n (record {
        world = w;
        clients = before ++ (record { handle = h; stage = stage' } ∷ after);
      })
  moved-IsSound stage' w held (fine, stands', held') apart =
      rebuilt stage' w fine
        (Tabled-Stands n p.world w (handles_of before ++ (handle_of h stage' ++ handles_of after))
          (one_first stage' before after)
          (subst (Tabled n p.world)
            (handles_first
              ∙ ap (λ l. handles_of before ++ (l ++ handles_of after)) (held ∙ sym held'))
            v.table)
          stands')
        stands'.0 apart

  pub gone-IsSound :
      (w : World S)
      → handle_of h stage ≡ []
      → Stands p.world.service w (others before after)
      → IsSound n (record { world = w; clients = before ++ after })
  gone-IsSound w held stands' =
      let (fb, fa) = rest_fine in
      record {
        table = subst (Tabled n w) (sym (handles_of-append before after)) (
            Tabled-Stands n p.world w (handles_of before ++ handles_of after) (others before after)
              (subst (Tabled n p.world)
                (handles_first ∙ ap (λ l. handles_of before ++ (l ++ handles_of after)) held)
                v.table)
              stands');
        leased = subst (Leased w) (sym (leases_of-append before after)) stands'.0;
        fine = All-append (λ (x : Client S). IsFine x.stage) before after fb fa;
        apart = λ r. omega (arith, own_reading r);
      }

  pub unmoved-Stands : Stands p.world.service p.world (one_first stage before after)
  unmoved-Stands = (middle-Stands n p before (record { handle = h; stage = stage }) after v e).1

  pub removed-IsSound :
      (l : Option Lease) (rx : Sender) (w : World S)
      → stage ≡ ended l rx
      → remove p.world h ≡ ok w
      → IsSound n (record {
        world = w;
        clients = before ++ (record { handle = h; stage = removed l rx } ∷ after);
      })
  removed-IsSound l rx w is r =
      let (table, leased) =
        remove-IsSound n p.world w h (handles_of before) (handles_of after)
          (one_first stage before after) r
          (subst (Tabled n p.world)
            (handles_first ∙ ap (λ s. handles_of before ++ (handle_of h s ++ handles_of after)) is)
            v.table)
          unmoved-Stands.0 in
      rebuilt (removed l rx) w tt table (subst (λ s. Leased w (one_first s before after)) is leased)
        (λ r. omega (arith, own_reading r, ap (reading r) is))
