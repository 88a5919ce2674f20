-- ===== src/Network/Views.antt =====
-- What can be seen of the tables: their look-ups, not the order of their entries, which
-- `std::collections::HashMap` leaves open and `expire` iterates in.
use mathlib.Core.Quot
use mathlib.Core.Quot.{Quot}
use lwproxy.Base.{ℕ, ◌≡◌, refl, sym, ◌∙◌, ap, Option, none, some}
use lwproxy.HashMap
use lwproxy.HashMap.{HashMap, get-insert, get-remove}
use lwproxy.Code.{Passcode}
use lwproxy.Translate.{RouteKey}
use lwproxy.Network.{NetworkState, RouteKey-discrete, assignment_of, address_for, route, expire}
use lwproxy.Network.Inv.{Inv}
use lwproxy.Network.Expire.{assignment_of-expire, route-expire, expire-Inv, if_fresh}

-- Every look-up answers the same.
pub record Alike (st st' : NetworkState) : Type 0 where
  pub addresses : (a : ℕ) → assignment_of st a ≡ assignment_of st' a
  pub passcodes : (p : Passcode) → address_for st p ≡ address_for st' p
  pub ports : (k : RouteKey) → route st k ≡ route st' k

-- Tables without the order of their entries.
abbrev pub View : Type 0
View = Quot Alike

abbrev pub view : NetworkState → View
view st = Quot.mk st

view-look_up :
    {A : Type 0} (d : IsSet A) (look_up : NetworkState → A)
    → ((st st' : NetworkState) → Alike st st' → look_up st ≡ look_up st')
    → (st st' : NetworkState) → view st ≡ view st'
    → look_up st ≡ look_up st'
view-look_up d look_up same st st' e = ap (Quot.lift d look_up same) e

-- The same view is seen exactly of tables that answer alike.
pub view-Alike : (st st' : NetworkState) → view st ≡ view st' → Alike st st'
view-Alike st st' e = record {
  addresses = λ a.
      view-look_up (hlevel) (λ (t : NetworkState). assignment_of t a) (λ t t' h. h.addresses a) st
        st' e;
  passcodes = λ p.
      view-look_up (hlevel) (λ (t : NetworkState). address_for t p) (λ t t' h. h.passcodes p) st st'
        e;
  ports =
      λ k. view-look_up (hlevel) (λ (t : NetworkState). route t k) (λ t t' h. h.ports k) st st' e;
}

-- Of tables that agree, the assignments tell the passcodes.
passcode_found :
    (st st' : NetworkState)
    → Inv st
    → Inv st'
    → ((a : ℕ) → assignment_of st a ≡ assignment_of st' a)
    → (p : Passcode) (address : ℕ) → address_for st p ≡ some address
    → address_for st' p ≡ some address
passcode_found st st' v v' same p address e =
    let (a, there, q) = v.issued p address e in
    ap (address_for st') (sym q) ∙ v'.held address a (sym (same address) ∙ there)

same_option :
    {A : Type 0} (o o' : Option A)
    → ((x : A) → o ≡ some x → o' ≡ some x)
    → ((x : A) → o' ≡ some x → o ≡ some x)
    → o ≡ o'
same_option none none f g = refl
same_option none (some x) f g = g x refl
same_option (some x) o' f g = sym (f x refl)

pub expire-Alike :
    (now : ℕ) (st st' : NetworkState)
    → Inv st
    → Inv st'
    → Alike st st'
    → Alike (expire now st) (expire now st')
expire-Alike now st st' v v' h =
    let same : (a : ℕ) → assignment_of (expire now st) a ≡ assignment_of (expire now st') a = λ a.
      assignment_of-expire now st v a
      ∙ ap (if_fresh now a) (h.addresses a)
      ∙ sym (assignment_of-expire now st' v' a) in
    record {
      addresses = same;
      passcodes = λ p.
          same_option _ _ (passcode_found _ _ (expire-Inv now st v) (expire-Inv now st' v') same p)
            (passcode_found _ _ (expire-Inv now st' v') (expire-Inv now st v) (λ a. sym (same a))
              p);
      ports = λ k.
          ap (λ m. HashMap.get RouteKey-discrete m k) (route-expire now st)
          ∙ h.ports k
          ∙ sym (ap (λ m. HashMap.get RouteKey-discrete m k) (route-expire now st'));
    }
