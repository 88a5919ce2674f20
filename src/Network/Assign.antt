-- ===== src/Network/Assign.antt =====
-- What `assign` hands out, and that it does hand out an address.
use lwproxy.Base.{
  ℕ, zero, suc, ◌<◌, ◌≡◌, ◌≢◌, refl, true, false, none, some, arith, ℕ_discrete, if◌then◌else◌, ◌∙◌,
  Bool-cases, Option-cases, inl, inr, sym, ite,
}
use lwproxy.Result.{ok, panic}
use lwproxy.HashMap.{get-insert}
use lwproxy.HashMap.Entries.{insert-IsUnique}
use lwproxy.HashMap.Counts.{count-zero}
use lwproxy.Code
use lwproxy.Code.{Rng, Passcode, Passcode-discrete, random_address, proxy_address, to_text}
use lwproxy.Code.Addresses.{IsAssignable, random_address-IsAssignable}
use lwproxy.Code.Passcodes.{parse-new}
use lwproxy.Translate.{RouteKey}
use lwproxy.Network.{
  NetworkState, Assignment, RouteKey-discrete, assignment_of, address_for, route, is_taken,
  record_assignment, assign_loop, assign, expire,
}
use lwproxy.Network.Inv.{Inv, bound_ports, on_address}
use lwproxy.Network.Expire.{expire-Inv}

module _ (st : NetworkState) (v : Inv st) where
  -- No port is bound on an address that is not assigned.
  bound_ports_unassigned :
      (address : ℕ) → assignment_of st address ≡ none → bound_ports st address ≡ 0
  bound_ports_unassigned address h =
      count-zero RouteKey-discrete (on_address address) st.routes no_route
    where
      no_route : (k : RouteKey) → on_address address k ≡ true → route st k ≡ none
      no_route (a, port) q = elim (Option-cases (route st (a, port))) [
        | inl e ↦ e
        | inr (relay, e) ↦ ground (arith, v.routed a port relay e)
      ]

  module _ (now address : ℕ) (p : Passcode) (free : is_taken st address p ≡ false) where
    abbrev recorded : NetworkState
    recorded = record_assignment now address p st

    abbrev fresh : Assignment
    fresh = record { passcode = p; binds = 0; touched = now }

    unassigned : assignment_of st address ≡ none
    unassigned = ground arith

    unissued : address_for st p ≡ none
    unissued = ground arith

    pub assignment_of-recorded :
        (a : ℕ)
        → assignment_of recorded a ≡ ite (ℕ_discrete a address) (some fresh) (assignment_of st a)
    unfolding record_assignment
    assignment_of-recorded a = get-insert ℕ_discrete st.by_address address a fresh

    pub address_for-recorded :
        (q : Passcode)
        → address_for recorded q ≡ ite (Passcode-discrete q p) (some address) (address_for st q)
    unfolding record_assignment
    address_for-recorded q = get-insert Passcode-discrete st.by_passcode p q address

    issued-recorded :
        (q : Passcode) (a : ℕ)
        → address_for recorded q ≡ some a
        → (x : Assignment) × (assignment_of recorded a ≡ some x) × (x.passcode ≡ q)
    issued-recorded q a h = elim (Passcode-discrete q p) [
      | yes e ↦ (fresh, ground (arith, address_for-recorded q, assignment_of-recorded a), sym e)
      | no ne ↦
          let (x, e, f) = v.issued q a (ground (arith, address_for-recorded q)) in
          (x, ground (arith, unassigned, assignment_of-recorded a), f)
    ]

    record_assignment-Inv : IsAssignable address → Inv recorded
    unfolding record_assignment
    record_assignment-Inv w = record {
      addresses_unique = insert-IsUnique ℕ_discrete st.by_address address _ v.addresses_unique;
      routes_unique = v.routes_unique;
      issued = issued-recorded;
      held = λ a x h.
          ground (
            arith,
            assignment_of-recorded a,
            address_for-recorded x.passcode,
            unissued,
            v.held a x,
          );
      counted = λ a x h. ground (
        arith,
        assignment_of-recorded a,
        bound_ports_unassigned address unassigned,
        v.counted a x,
      );
      routed = λ a port relay h. ground (arith, assignment_of-recorded a, v.routed a port relay h);
      assignable = λ a x h. ground (arith, assignment_of-recorded a, v.assignable a x, w);
    }

-- What a client that asks for an address gets.
pub record IsFreshlyAssigned (before after : NetworkState) (address : ℕ) (p : Passcode)
    : Type 0 where
  pub consistent : Inv after
  pub was_free : assignment_of before address ≡ none
  pub reads_back : Code.parse (to_text p) ≡ ok p
  pub leads_there : address_for after p ≡ some address
  pub may_be_given : IsAssignable address
  pub not_proxy : address ≢ proxy_address
  pub others_kept : (a : ℕ) → a ≢ address → assignment_of after a ≡ assignment_of before a
  pub routes_kept : after.routes ≡ before.routes

recorded-IsFreshlyAssigned :
    (st : NetworkState) (now address : ℕ) (p : Passcode)
    → Inv st
    → Code.parse (to_text p) ≡ ok p
    → is_taken st address p ≡ false
    → IsAssignable address × (address ≢ proxy_address)
    → IsFreshlyAssigned st (record_assignment now address p st) address p
recorded-IsFreshlyAssigned st now address p v back free w = record {
  consistent = record_assignment-Inv st v now address p free w.0;
  was_free = unassigned st v now address p free;
  reads_back = back;
  leads_there = ground (arith, address_for-recorded st v now address p free p);
  may_be_given = w.0;
  not_proxy = w.1;
  others_kept = λ a ne. ground (arith, assignment_of-recorded st v now address p free a);
  routes_kept = unfold record_assignment in refl;
}

module _ {S : Type 0} (rng : Rng S) where
  -- One round, on what it draws.
  pub assign_loop_round :
      (fuel tries now : ℕ) (st : NetworkState) (s s' s'' : S) (a : ℕ) (q : Passcode)
      → random_address rng tries s ≡ some (a, s')
      → Code.new rng s' ≡ ok (q, s'')
      → assign_loop rng (suc fuel) tries now st s ≡ (
          if is_taken st a q
          then assign_loop rng fuel tries now st s''
          else ok (some (a, q, record_assignment now a q st, s'')))
  unfolding assign_loop
  assign_loop_round fuel tries now st s s' s'' a q e f = ground arith

  assign_loop_lem :
      (fuel tries now : ℕ) (st : NetworkState) (s : S) {address : ℕ} {p : Passcode}
      {st' : NetworkState} {s' : S}
      → Inv st
      → assign_loop rng fuel tries now st s ≡ ok (some (address, p, st', s'))
      → IsFreshlyAssigned st st' address p
  unfolding assign_loop
  assign_loop_lem zero tries now st s v h = cc
  assign_loop_lem (suc fuel) tries now st s {address} {p} {st'} {s'} v h =
      elim (Option-cases (random_address rng tries s)) [
        | inl e ↦ cc (rw (e, assign_loop) at h)
        | inr ((a, t), e) ↦
            let (q, t', f, g) = parse-new rng t in
            let w = random_address-IsAssignable rng tries s t a e in
            let round = assign_loop_round fuel tries now st s t t' a q e f in
            elim (Bool-cases (is_taken st a q)) [
              | inl taken ↦
                  assign_loop_lem fuel tries now st t' {s' = s'} v (sym (rw taken at round) ∙ h)
              | inr free ↦
                  let done = sym (rw free at round) ∙ h in
                  let e1 : st' ≡ record_assignment now a q st = cc in
                  let e2 : address ≡ a = cc in
                  let e3 : p ≡ q = cc in
                  rw (e1, e2, e3) (recorded-IsFreshlyAssigned st now a q v g free w)
            ]
      ]

  -- While the tables agree, an answer of `assign` is an address that was not assigned once stale
  -- assignments are forgotten, that lies on the private network above the reserved ones and is not
  -- the proxy's own; its passcode reads back from its text and leads to it, the tables agree, and
  -- other assignments and all routes are as `expire` left them.
  pub assign-IsFreshlyAssigned :
      (fuel tries now later : ℕ) (st : NetworkState) (s : S) {address : ℕ} {p : Passcode}
      {st' : NetworkState} {s' : S}
      → Inv st
      → assign rng fuel tries now later st s ≡ ok (some (address, p, st', s'))
      → IsFreshlyAssigned (expire now st) st' address p
  unfolding assign
  assign-IsFreshlyAssigned fuel tries now later st s {s'} v h =
      assign_loop_lem fuel tries later (expire now st) s {s' = s'} (expire-Inv now st v) h

  -- The generator's draws for `n` rounds whose candidate is taken and one whose candidate is not.
  pub data Draws (tries : ℕ) (st : NetworkState) : ℕ → S → ℕ → Passcode → S → Type 0 where
    free :
        {s s' s'' : S} {a : ℕ} {p : Passcode}
        → random_address rng tries s ≡ some (a, s')
        → Code.new rng s' ≡ ok (p, s'')
        → is_taken st a p ≡ false
        → Draws tries st zero s a p s''
    taken :
        {n : ℕ} {s s' s'' t : S} {a b : ℕ} {p q : Passcode}
        → random_address rng tries s ≡ some (b, s')
        → Code.new rng s' ≡ ok (q, s'')
        → is_taken st b q ≡ true
        → Draws tries st n s'' a p t
        → Draws tries st (suc n) s a p t

  assign_loop_total :
      (fuel now : ℕ) {tries n : ℕ} {st : NetworkState} {s t : S} {a : ℕ} {p : Passcode}
      → Draws tries st n s a p t
      → n < fuel
      → assign_loop rng fuel tries now st s ≡ ok (some (a, p, record_assignment now a p st, t))
  assign_loop_total zero now d h = absurd (omega arith)
  assign_loop_total (suc fuel) now {tries} {st} (free {s} {s'} {s''} {a} {p} e f g) h =
      assign_loop_round fuel tries now st s s' s'' a p e f ∙ rw g
  assign_loop_total (suc fuel) now {tries} {st} (taken {s} {s'} {s''} {b} {q} e f g d) h =
      assign_loop_round fuel tries now st s s' s'' b q e f
      ∙ rw g (assign_loop_total fuel now d (omega arith))

  -- If the generator's first candidates are n taken ones and then one that is not taken, `assign`
  -- answers with that one within any fuel above n, and has recorded it in the tables that `expire`
  -- left.
  pub assign_total :
      (fuel now later : ℕ) (st : NetworkState) {tries n : ℕ} {s t : S} {a : ℕ} {p : Passcode}
      → Draws tries (expire now st) n s a p t
      → n < fuel
      → assign rng fuel tries now later st s
        ≡ ok (some (a, p, record_assignment later a p (expire now st), t))
  unfolding assign
  assign_total fuel now later st d h = assign_loop_total fuel later d h

  assign_loop-ne-panic :
      (fuel tries now : ℕ) (st : NetworkState) (s : S) → assign_loop rng fuel tries now st s ≢ panic
  unfolding assign_loop
  assign_loop-ne-panic zero tries now st s h = cc
  assign_loop-ne-panic (suc fuel) tries now st s h =
      elim (Option-cases (random_address rng tries s)) [
        | inl e ↦ cc (rw (e, assign_loop) at h)
        | inr ((a, t), e) ↦
            let (q, t', f, g) = parse-new rng t in
            let round = assign_loop_round fuel tries now st s t t' a q e f in
            elim (Bool-cases (is_taken st a q)) [
              | inl used ↦ assign_loop-ne-panic fuel tries now st t' (sym (rw used at round) ∙ h)
              | inr unused ↦ cc (rw unused at round, h)
            ]
      ]

  -- `assign` never panics: no draw makes it read past the passcode alphabet.
  pub assign-ne-panic :
      (fuel tries now later : ℕ) (st : NetworkState) (s : S)
      → assign rng fuel tries now later st s ≢ panic
  unfolding assign
  assign-ne-panic fuel tries now later st s =
      assign_loop-ne-panic fuel tries later (expire now st) s
