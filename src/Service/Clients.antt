-- ===== src/Service/Clients.antt =====
-- Clients that come and leave: each handle that is held stands in the table under an id of its own.
use lwproxy.Base.{
  ℕ, suc, ◌+◌, ◌%◌, ◌^◌, ◌<◌, ◌≤◌, ◌≡◌, refl, List, [], ◌∷◌, ◌++◌, none, some, arith, ite,
  ℕ_discrete, ap, ◌∙◌, sym, Option, Option-cases, inl, inr,
}
use lwproxy.HashMap
use lwproxy.Result.{ok, panic, ok_inj}
use lwproxy.Net.{SocketAddr}
use lwproxy.Service.{ProxyClientHandle, ProxyService, new, new_client, remove_client}

pub record System : Type 0 where
  pub service : ProxyService
  pub held : List ProxyClientHandle

abbrev pub client_for : ProxyService → ℕ → Option ProxyClientHandle
client_for s = HashMap.get ℕ_discrete s.clients

-- After so many clients came.
pub data Reach : ℕ → System → Type 0 where
  here : Reach 0 (record { service = new; held = [] })
  comes :
      (n : ℕ) (y : System) (addr : SocketAddr)
      → Reach n y
      → Reach (suc n) (record {
        service = (new_client y.service addr).1;
        held = (new_client y.service addr).0 ∷ y.held;
      })
  leaves :
      (n : ℕ) (y : System) (before : List ProxyClientHandle) (h : ProxyClientHandle)
      (after : List ProxyClientHandle) (s : ProxyService)
      → y.held ≡ before ++ (h ∷ after)
      → remove_client y.service h ≡ ok s
      → Reach n y
      → Reach n (record { service = s; held = before ++ after })

unfoldable pub handles_with : ℕ → List ProxyClientHandle → ℕ
handles_with id [] = 0
handles_with id (h ∷ hs) = ite (ℕ_discrete id h.id) 1 0 + handles_with id hs

abbrev pub one_if : Option ProxyClientHandle → ℕ
one_if none = 0
one_if (some h) = 1

pub handles_with-append :
    (id : ℕ) (xs ys : List ProxyClientHandle)
    → handles_with id (xs ++ ys) ≡ handles_with id xs + handles_with id ys
unfolding handles_with
handles_with-append id [] ys = omega arith
handles_with-append id (h ∷ xs) ys = omega (arith, handles_with-append id xs ys)

-- The table holds exactly the handles that are held, under ids that were given out.
pub record IsTable (n : ℕ) (y : System) : Type 0 where
  pub counter : y.service.counter ≡ (n + 1) % 2 ^ 64
  pub held : (id : ℕ) → handles_with id y.held ≡ one_if (client_for y.service id)
  pub fresh : (k : ℕ) → client_for y.service (n + 1 + k) ≡ none

pub comes-IsTable :
    (n : ℕ) (y : System) (addr : SocketAddr)
    → suc n < 2 ^ 64
    → IsTable n y
    → IsTable (suc n) (record {
      service = (new_client y.service addr).1;
      held = (new_client y.service addr).0 ∷ y.held;
    })
unfolding new_client handles_with
comes-IsTable n y addr h v =
    let id0 = y.service.counter in
    let number : id0 ≡ n + 1 + 0 = omega (arith, v.counter) in
    let free : client_for y.service id0 ≡ none = rw number (v.fresh 0) in
    let handle = (new_client y.service addr).0 in
    record {
      counter = omega (arith, v.counter);
      held = λ id.
          ground
            (arith, HashMap.get-insert ℕ_discrete y.service.clients id0 id handle, v.held id, free);
      fresh = λ k.
          let later : suc n + 1 + k ≡ n + 1 + suc k = omega arith in
          rw later (
            ground (
              arith,
              HashMap.get-insert ℕ_discrete y.service.clients id0 (n + 1 + suc k) handle,
              v.fresh (suc k),
              number,
            ));
    }

one_if-le : (o : Option ProxyClientHandle) → one_if o ≤ 1
one_if-le none = omega arith
one_if-le (some h) = omega arith

remove_client-none :
    (s : ProxyService) (h : ProxyClientHandle)
    → client_for s h.id ≡ none
    → remove_client s h ≡ panic
unfolding remove_client
remove_client-none s h e = rw (e, remove_client) refl

remove_client-some :
    (s : ProxyService) (h c : ProxyClientHandle)
    → client_for s h.id ≡ some c
    → remove_client s h ≡ ok (record s { clients = HashMap.remove ℕ_discrete s.clients h.id })
unfolding remove_client
remove_client-some s h c e = rw (e, remove_client) refl

pub remove_client-ok :
    (s s' : ProxyService) (h : ProxyClientHandle)
    → remove_client s h ≡ ok s'
    → (s'.counter ≡ s.counter)
      × ((id : ℕ) → client_for s' id ≡ ite (ℕ_discrete id h.id) none (client_for s id))
      × (s'.network ≡ s.network)
remove_client-ok s s' h e = elim (Option-cases (client_for s h.id)) [
  | inl missing ↦ absurd (cc (remove_client-none s h missing, e))
  | inr (c, there) ↦
      let same = ok_inj (sym e ∙ remove_client-some s h c there) in
      (
        ap (λ t. t.counter) same,
        λ id. ap (λ t. client_for t id) same ∙ HashMap.get-remove ℕ_discrete s.clients h.id id,
        ap (λ t. t.network) same,
      )
]

handles_with-removed :
    (id : ℕ) (before : List ProxyClientHandle) (h : ProxyClientHandle)
    (after : List ProxyClientHandle)
    → handles_with id (before ++ (h ∷ after))
      ≡ handles_with id (before ++ after) + ite (ℕ_discrete id h.id) 1 0
unfolding handles_with
handles_with-removed id before h after =
    omega (arith, handles_with-append id before (h ∷ after), handles_with-append id before after)

handles_with-released :
    (id : ℕ) (before : List ProxyClientHandle) (h : ProxyClientHandle)
    (after : List ProxyClientHandle) (o : Option ProxyClientHandle)
    → handles_with id (before ++ (h ∷ after)) ≡ one_if o
    → handles_with id (before ++ after) ≡ one_if (ite (ℕ_discrete id h.id) none o)
handles_with-released id before h after o e =
    ground (arith, handles_with-removed id before h after, one_if-le o)

held_once :
    (before : List ProxyClientHandle) (h : ProxyClientHandle) (after : List ProxyClientHandle)
    → 1 ≤ handles_with h.id (before ++ (h ∷ after))
held_once before h after = ground (arith, handles_with-removed h.id before h after)

pub leaves-IsTable :
    (n : ℕ) (y : System) (before : List ProxyClientHandle) (h : ProxyClientHandle)
    (after : List ProxyClientHandle) (s : ProxyService)
    → y.held ≡ before ++ (h ∷ after)
    → remove_client y.service h ≡ ok s
    → IsTable n y
    → IsTable n (record { service = s; held = before ++ after })
leaves-IsTable n y before h after s e r v =
    let (counter, gets, kept) = remove_client-ok y.service s h r in
    record {
      counter = counter ∙ v.counter;
      held = λ id.
          rw (gets id) (
            handles_with-released id before h after (client_for y.service id)
              (rw e at (v.held id)));
      fresh = λ k. ground (arith, gets (n + 1 + k), v.fresh k);
    }

pub start-IsTable : IsTable 0 (record { service = new; held = [] })
unfolding new handles_with
start-IsTable = record {
  counter = refl;
  held = λ id. rw (HashMap.get-new) refl;
  fresh = λ k. HashMap.get-new ℕ_discrete (0 + 1 + k);
}

Reach-IsTable : (n : ℕ) (y : System) → Reach n y → n < 2 ^ 64 → IsTable n y
Reach-IsTable n y here h = start-IsTable
Reach-IsTable n y (comes m z addr r) h =
    comes-IsTable m z addr h (Reach-IsTable m z r (omega arith))
Reach-IsTable n y (leaves m z before g after s e q r) h =
    leaves-IsTable m z before g after s e q (Reach-IsTable m z r h)

-- A client that is held can be removed.
pub remove_client-held :
    (n : ℕ) (y : System) (before : List ProxyClientHandle) (h : ProxyClientHandle)
    (after : List ProxyClientHandle)
    → y.held ≡ before ++ (h ∷ after)
    → IsTable n y
    → (s : ProxyService) × (remove_client y.service h ≡ ok s)
remove_client-held n y before h after e v = elim (Option-cases (client_for y.service h.id)) [
  | inl missing ↦
      absurd (omega (arith, held_once before h after, (rw e at (v.held h.id)) ∙ ap one_if missing))
  | inr (c, there) ↦ (
    record y.service { clients = HashMap.remove ℕ_discrete y.service.clients h.id },
    remove_client-some y.service h c there,
  )
]

-- As long as fewer than 2^64 clients have come, and however they come and leave, removing a client
-- that is connected never meets a missing entry; then the table has an entry for exactly the
-- clients that are still connected, under ids of their own, and none for the one that left.
pub remove_client-total :
    (n : ℕ) (y : System) (before : List ProxyClientHandle) (h : ProxyClientHandle)
    (after : List ProxyClientHandle)
    → Reach n y
    → n < 2 ^ 64
    → y.held ≡ before ++ (h ∷ after)
    → (s : ProxyService) × (remove_client y.service h ≡ ok s)
      × ((id : ℕ) → handles_with id (before ++ after) ≡ one_if (client_for s id))
      × (handles_with h.id (before ++ after) ≡ 0)
remove_client-total n y before h after r small e =
    let v = Reach-IsTable n y r small in
    let (s, done) = remove_client-held n y before h after e v in
    let w = leaves-IsTable n y before h after s e done v in
    let (counter, gets, kept) = remove_client-ok y.service s h done in
    (s, done, w.held, ground (arith, w.held h.id, gets h.id))
