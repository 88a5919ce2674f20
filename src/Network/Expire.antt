-- ===== src/Network/Expire.antt =====
-- What `expire` forgets, and what it keeps.
use mathlib.Core.Path.{subst}
use lwproxy.Base.{
  some_inj, ℕ, ◌+◌, ◌^◌, ◌<◌, ◌↔◌, ◌⊎◌, ◌≡◌, refl, sym, ◌∙◌, ap, true, false, List, [], ◌∷◌, map,
  Option, none, some, ℕ_discrete, arith, keep, Bool-cases, inl, inr, Option-cases, is_some,
}
use lwproxy.HashMap
use lwproxy.HashMap.Entries.{
  contains, remove_all, get-remove_all, remove_all-IsUnique, kept, is_kept,
}
use lwproxy.Code.{Passcode, Passcode-discrete}
use lwproxy.Network.{
  NetworkState, Assignment, RouteKey-discrete, assignment_of, address_for, route, is_stale, stale,
  forget, expire,
}
use lwproxy.Network.Inv.{Inv, bound_ports, on_address, on_address_self}
use lwproxy.HashMap.Counts.{count-pos}
use lwproxy.Translate.{Sender}

addresses_of : List (ℕ × Passcode) → List ℕ
addresses_of = map (λ e. e.0)

passcodes_of : List (ℕ × Passcode) → List Passcode
passcodes_of = map (λ e. e.1)

forget_lem :
    (l : List (ℕ × Passcode)) (st : NetworkState)
    → forget l st ≡ record st {
      by_address = remove_all ℕ_discrete (addresses_of l) st.by_address;
      by_passcode = remove_all Passcode-discrete (passcodes_of l) st.by_passcode;
    }
unfolding forget remove_all addresses_of passcodes_of
forget_lem [] st = refl
forget_lem ((address, passcode) ∷ l) st = forget_lem l _

map-map {ℓ κ μ} :
    {A : Type ℓ} {B : Type κ} {C : Type μ} (g : B → C) (f : A → B) (l : List A)
    → map g (map f l) ≡ map (λ x. g (f x)) l
map-map g f [] = refl
map-map g f (x ∷ l) = ap (◌∷◌ (g (f x))) (map-map g f l)

-- After `now`: forgotten if it is stale.
abbrev pub if_fresh : ℕ → ℕ → Option Assignment → Option Assignment
if_fresh now address none = none
if_fresh now address (some a) = elim (is_stale now (address, a)) [ true ↦ none | false ↦ some a ]

module _ (now : ℕ) (st : NetworkState) where
  pub route-expire : (expire now st).routes ≡ st.routes
  unfolding expire
  route-expire = rw (forget_lem (stale now st) st)

  by_address-expire :
      (expire now st).by_address
      ≡ remove_all ℕ_discrete
          (map (λ e. e.0) (keep (is_stale now) st.by_address.entries))
          st.by_address
  unfolding expire addresses_of
  by_address-expire = rw (
    forget_lem (stale now st) st,
    map-map (λ (e : ℕ × Passcode). e.0) (λ (e : ℕ × Assignment). (e.0, e.1.passcode))
        (keep (is_stale now) st.by_address.entries),
  )

  by_passcode-expire :
      (expire now st).by_passcode
      ≡ remove_all Passcode-discrete
          (map (λ e. e.1.passcode) (keep (is_stale now) st.by_address.entries))
          st.by_passcode
  unfolding expire passcodes_of
  by_passcode-expire = rw (
    forget_lem (stale now st) st,
    map-map (λ (e : ℕ × Passcode). e.1) (λ (e : ℕ × Assignment). (e.0, e.1.passcode))
        (keep (is_stale now) st.by_address.entries),
  )

module _ (now : ℕ) (st : NetworkState) (v : Inv st) where
  abbrev stale_addresses : List ℕ
  stale_addresses = map (λ e. e.0) (keep (is_stale now) st.by_address.entries)

  abbrev stale_passcodes : List Passcode
  stale_passcodes = map (λ e. e.1.passcode) (keep (is_stale now) st.by_address.entries)

  stale_address :
      (address : ℕ)
      → contains ℕ_discrete stale_addresses address ≡ true
      → (a : Assignment) × (assignment_of st address ≡ some a) × (is_stale now (address, a) ≡ true)
  stale_address address gone =
      let (k, a, e, p, q) =
        kept ℕ_discrete ℕ_discrete (is_stale now) (λ e. e.0) st.by_address address
          v.addresses_unique gone in
      (a, rw (← q) e, p)

  stale_passcode :
      (p : Passcode)
      → contains Passcode-discrete stale_passcodes p ≡ true
      → (address : ℕ) × (a : Assignment) × (address_for st p ≡ some address)
        × (assignment_of st address ≡ some a)
        × (is_stale now (address, a) ≡ true)
  stale_passcode p gone =
      let (k, a, e, s, q) =
        kept ℕ_discrete Passcode-discrete (is_stale now) (λ e. e.1.passcode) st.by_address p
          v.addresses_unique gone in
      (k, a, rw (← q) (v.held k a e), e, s)

  -- While the tables agree, `expire` forgets what is stale, and keeps every other one unchanged.
  pub assignment_of-expire :
      (address : ℕ)
      → assignment_of (expire now st) address ≡ if_fresh now address (assignment_of st address)
  assignment_of-expire address =
      rw (by_address-expire now st, get-remove_all ℕ_discrete stale_addresses st.by_address address)
        (elim (Bool-cases (contains ℕ_discrete stale_addresses address)) [
          | inl gone ↦ let (a, e, p) = stale_address address gone in rw (gone, e, p, if_fresh)
          | inr stays ↦ rw stays (stays_fresh (assignment_of st address) refl stays)
        ])
    where
      stays_fresh :
          (o : Option Assignment)
          → assignment_of st address ≡ o
          → contains ℕ_discrete stale_addresses address ≡ false
          → assignment_of st address ≡ if_fresh now address o
      stays_fresh none e stays = e
      stays_fresh (some a) e stays = elim (Bool-cases (is_stale now (address, a))) [
        | inl old ↦
            cc (
              is_kept ℕ_discrete ℕ_discrete (is_stale now) (λ e. e.0) st.by_address address a e old)
        | inr young ↦ rw (young, if_fresh) e
      ]

  -- While the tables agree, an assignment stands after `expire` exactly if it stood before, the
  -- same one, and a port is bound on it or the clock reads less than 24 hours, 86400000000000
  -- nanoseconds, after its time.
  pub expire-keeps :
      (address : ℕ) (a : Assignment)
      → (assignment_of (expire now st) address ≡ some a) ↔ (
          (assignment_of st address ≡ some a)
          × ((0 < a.binds) ⊎ (now < a.touched + 86400000000000)))
  expire-keeps address a =
      keeps (assignment_of (expire now st) address) (assignment_of st address)
        (assignment_of-expire address)
    where
      not_stale :
          (b : Assignment)
          → is_stale now (address, b) ≡ true
          → ((0 < b.binds) ⊎ (now < b.touched + 86400000000000))
          → ⊥
      not_stale b old fresh = ground arith

      in_use :
          (b : Assignment)
          → is_stale now (address, b) ≡ false
          → (0 < b.binds) ⊎ (now < b.touched + 86400000000000)
      in_use b young = ground arith

      keeps :
          (o o' : Option Assignment)
          → o ≡ if_fresh now address o'
          → (o ≡ some a) ↔ ((o' ≡ some a) × ((0 < a.binds) ⊎ (now < a.touched + 86400000000000)))
      keeps o none e = ground arith
      keeps o (some b) e = elim (Bool-cases (is_stale now (address, b))) [
        | inl old ↦
            let gone : o ≡ none = e ∙ rw (old, if_fresh) refl in
            (
              λ h. cc (gone, h),
              λ (same, fresh). absurd (
                  not_stale b old (
                    subst (λ (x : Assignment). (0 < x.binds) ⊎ (now < x.touched + 86400000000000))
                      (sym (some_inj same)) fresh)),
            )
        | inr young ↦
            let stays : o ≡ some b = e ∙ rw (young, if_fresh) refl in
            (
              λ h.
                  let same : some b ≡ some a = sym stays ∙ h in
                  (
                    same,
                    subst (λ (x : Assignment). (0 < x.binds) ⊎ (now < x.touched + 86400000000000))
                        (some_inj same) (in_use b young),
                  ),
              λ (same, fresh). stays ∙ same,
            )
      ]

  -- A passcode that still works led to the same address before, and its assignment is kept.
  address_for-expire :
      (p : Passcode) (address : ℕ)
      → address_for (expire now st) p ≡ some address
      → (a : Assignment) × (address_for st p ≡ some address)
        × (assignment_of (expire now st) address ≡ some a)
        × (a.passcode ≡ p)
  address_for-expire p address h =
      elim (Bool-cases (contains Passcode-discrete stale_passcodes p)) [
        | inl gone ↦ cc (looked_up, gone)
        | inr stays ↦
            let before : address_for st p ≡ some address = ground (arith, looked_up) in
            let (a, e, q) = v.issued p address before in
            (a, before, rw (assignment_of-expire address, e) (fresh a e q stays), q)
      ]
    where
      looked_up :
          elim (contains Passcode-discrete stale_passcodes p) [
            | true ↦ none
            | false ↦ address_for st p
          ]
          ≡ some address
      looked_up =
          sym (
            ap (λ m. HashMap.get Passcode-discrete m p) (by_passcode-expire now st)
            ∙ get-remove_all Passcode-discrete stale_passcodes st.by_passcode p)
          ∙ h

      fresh :
          (a : Assignment)
          → assignment_of st address ≡ some a
          → a.passcode ≡ p
          → contains Passcode-discrete stale_passcodes p ≡ false
          → if_fresh now address (some a) ≡ some a
      fresh a e q stays = elim (Bool-cases (is_stale now (address, a))) [
        | inl old ↦ cc (
            is_kept ℕ_discrete Passcode-discrete (is_stale now) (λ e. e.1.passcode) st.by_address
              address a e old)
        | inr young ↦ rw (young, if_fresh)
      ]

  fresh_inv :
      (address : ℕ) (o : Option Assignment) (a : Assignment)
      → if_fresh now address o ≡ some a
      → (o ≡ some a) × (is_stale now (address, a) ≡ false)
  fresh_inv address none a h = cc
  fresh_inv address (some b) a h = elim (Bool-cases (is_stale now (address, b))) [
    | inl old ↦ cc (rw (old, if_fresh) at h)
    | inr young ↦ let e : some b ≡ some a = rw (young, if_fresh) at h in (e, ground arith)
  ]

  kept_assignment :
      (address : ℕ) (a : Assignment)
      → assignment_of (expire now st) address ≡ some a
      → (assignment_of st address ≡ some a) × (is_stale now (address, a) ≡ false)
  kept_assignment address a h =
      fresh_inv address (assignment_of st address) a (sym (assignment_of-expire address) ∙ h)

  held-expire :
      (address : ℕ) (a : Assignment)
      → assignment_of (expire now st) address ≡ some a
      → address_for (expire now st) a.passcode ≡ some address
  held-expire address a h =
      let (e, young) = kept_assignment address a h in
      ap (λ m. HashMap.get Passcode-discrete m a.passcode) (by_passcode-expire now st)
      ∙ get-remove_all Passcode-discrete stale_passcodes st.by_passcode a.passcode
      ∙ (elim (Bool-cases (contains Passcode-discrete stale_passcodes a.passcode)) [
        | inl gone ↦
            let (k, b, f, g, old) = stale_passcode a.passcode gone in
            ground (arith, v.held address a e)
        | inr stays ↦ rw stays (v.held address a e)
      ])

  -- While the tables agree, an assignment with at least one bound port survives `expire` unchanged,
  -- whatever the clock says.
  pub bound_stays :
      (address : ℕ) (a : Assignment)
      → assignment_of st address ≡ some a
      → 0 < bound_ports st address
      → assignment_of (expire now st) address ≡ some a
  bound_stays address a h b =
      rw (assignment_of-expire address, h) (ground (arith, v.counted address a h))

  routed-expire :
      (address port : ℕ) (relay : Sender)
      → route (expire now st) (address, port) ≡ some relay
      → (is_some (assignment_of (expire now st) address) ≡ true) × (0 < port) × (port < 2 ^ 16)
  routed-expire address port relay h =
      let h' : route st (address, port) ≡ some relay = rw (route-expire now st) at h in
      let (there, pos, lt) = v.routed address port relay h' in
      (
        elim (Option-cases (assignment_of st address)) [
          | inl e ↦ cc
          | inr (a, e) ↦ ground (
            arith,
            bound_stays address a e (
                count-pos RouteKey-discrete (on_address address) st.routes (address, port) relay h'
                  (on_address_self address port)),
          )
        ],
        pos,
        lt,
      )

  -- Forgetting what is stale keeps the tables in agreement.
  pub expire-Inv : Inv (expire now st)
  expire-Inv = record {
    addresses_unique =
        rw (by_address-expire now st)
          (remove_all-IsUnique ℕ_discrete stale_addresses st.by_address v.addresses_unique);
    routes_unique = rw (route-expire now st) v.routes_unique;
    issued = λ p address h. let (a, before, e, q) = address_for-expire p address h in (a, e, q);
    held = held-expire;
    counted = λ address a h.
        rw (route-expire now st) (v.counted address a (kept_assignment address a h).0);
    routed = routed-expire;
    assignable = λ address a h. v.assignable address a (kept_assignment address a h).0;
  }
