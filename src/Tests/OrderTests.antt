-- ===== src/Tests/OrderTests.antt =====
-- Two clients that ask for addresses in one order and in the other; what then follows is the same.
use mathlib.Core.Logic.{if_neg}
use lwproxy.Base.{
  none, sym, ◌∙◌, ap, ℕ, ◌*◌, ◌^◌, ◌≡◌, ◌≢◌, refl, ap, [], ◌∷◌, List, some, true, arith, ℕ_discrete,
}
use lwproxy.Result.{ok}
use lwproxy.Wire.{be_bytes, from_be_from}
use lwproxy.Wire.Model.{plain_buf}
use lwproxy.HashMap
use lwproxy.HashMap.{HashMap, get-insert}
use lwproxy.Code
use lwproxy.Code.{Passcode, codes, Passcode-discrete}
use lwproxy.Code.Addresses.{address_of}
use lwproxy.Network
use lwproxy.Network.{NetworkState, address_for, assign, record_assignment, BindHandler}
use lwproxy.Network.Inv.{Inv, new-Inv}
use lwproxy.Network.Assign.{assign-IsFreshlyAssigned}
use lwproxy.Network.Views.{Alike}
use lwproxy.Network.Order.{Request, assigns, binds, drops, sends, answers, view-answers}
use lwproxy.Tests.Sample.{counting, first_address, first_passcode, assigned, assign_runs}
use lwproxy.Network.Leases.{Reach-IsLeased}
use lwproxy.Commands.{World}
use lwproxy.Commands.Linking.{Meanwhile, IsLinked, handle_command-IsLinked}
use lwproxy.Tests.CommandTests.{meets, world, given, newaddr_runs, world-Reach}
use mathlib.Core.Quot

abbrev second_address : ℕ
second_address = address_of 317

abbrev second_passcode : Passcode
second_passcode = record { code = codes "STUVWXYZabcdefgh" }

abbrev one_order : NetworkState
one_order = record_assignment 7 second_address second_passcode (Network.expire 6 assigned)

one_order_runs :
    assign counting 1 1 6 7 assigned 17 ≡ ok (some (second_address, second_passcode, one_order, 34))
unfolding assign Network.assign_loop Network.new Network.expire Network.forget Code.new
    Code.random_address Code.random_code HashMap.new HashMap.get HashMap.insert HashMap.remove
    Passcode-discrete from_be_from be_bytes record_assignment ℕ_discrete
one_order_runs = refl

abbrev second_alone : NetworkState
second_alone = record_assignment 7 second_address second_passcode (Network.expire 6 Network.new)

abbrev other_order : NetworkState
other_order = record_assignment 7 first_address first_passcode (Network.expire 6 second_alone)

second_alone_runs :
    assign counting 1 1 6 7 Network.new 17
    ≡ ok (some (second_address, second_passcode, second_alone, 34))
unfolding assign Network.assign_loop Network.new Network.expire Network.forget Code.new
    Code.random_address Code.random_code HashMap.new HashMap.get HashMap.insert HashMap.remove
    Passcode-discrete from_be_from be_bytes
second_alone_runs = refl

other_order_runs :
    assign counting 1 1 6 7 second_alone 0
    ≡ ok (some (first_address, first_passcode, other_order, 17))
unfolding assign Network.assign_loop Network.new Network.expire Network.forget Code.new
    Code.random_address Code.random_code HashMap.new HashMap.get HashMap.insert HashMap.remove
    Passcode-discrete from_be_from be_bytes record_assignment ℕ_discrete
other_order_runs = refl

one_order-Inv : Inv one_order
one_order-Inv =
    let first =
      (assign-IsFreshlyAssigned counting 1 1 6 7 Network.new 0 new-Inv assign_runs).consistent in
    (assign-IsFreshlyAssigned counting 1 1 6 7 assigned 17 first one_order_runs).consistent

other_order-Inv : Inv other_order
other_order-Inv =
    let first =
      (assign-IsFreshlyAssigned counting 1 1 6 7 Network.new 17 new-Inv
        second_alone_runs).consistent in
    (assign-IsFreshlyAssigned counting 1 1 6 7 second_alone 0 first other_order_runs).consistent

insert_swap {ℓ} :
    {K V : Type ℓ} (d : Discrete K) (m : HashMap K V) (k j : K) (x y : V)
    → k ≢ j
    → (i : K)
    → HashMap.get d (HashMap.insert d (HashMap.insert d m k x) j y) i
      ≡ HashMap.get d (HashMap.insert d (HashMap.insert d m j y) k x) i
insert_swap d m k j x y apart i = ground (
  arith,
  get-insert d (HashMap.insert d m k x) j i y,
  get-insert d m k i x,
  get-insert d (HashMap.insert d m j y) k i x,
  get-insert d m j i y,
)

addresses-apart : first_address ≢ second_address
unfolding from_be_from be_bytes
addresses-apart = omega arith

passcodes-apart : first_passcode ≢ second_passcode
passcodes-apart e =
    let first_bytes : ◌≡◌ {A = ℕ} 66 83 = ap (λ (p : Passcode). head_or p.code) e in omega arith
  where
    head_or : List ℕ → ℕ
    head_or [] = 0
    head_or (b ∷ bytes) = b

orders-Alike : Alike one_order other_order
unfolding Network.new Network.expire Network.forget HashMap.new HashMap.get HashMap.insert
    HashMap.remove Passcode-discrete record_assignment ℕ_discrete
orders-Alike = record {
  addresses =
      λ a. insert_swap ℕ_discrete HashMap.new first_address second_address _ _ addresses-apart a;
  passcodes = λ p.
      insert_swap Passcode-discrete HashMap.new first_passcode second_passcode _ _ passcodes-apart
        p;
  ports = λ k. refl;
}

abbrev second_lease : BindHandler
second_lease = record { key = (second_address, 30000); egress = 4 }

-- Both bind, one leaves and one sends; after a day the address without a port expires.
abbrev requests : List Request
requests =
    binds 8 first_passcode 30000 1 2
    ∷ binds 9 second_passcode 30000 3 4
    ∷ drops 10 (first_address, 30000)
    ∷ sends second_lease (1 ∷ []) true
    ∷ assigns 1 1 (25 * 60 * 60 * 10 ^ 9) (25 * 60 * 60 * 10 ^ 9)
    ∷ []

view-answers_example :
    answers plain_buf counting requests one_order 34
    ≡ answers plain_buf counting requests other_order 34
view-answers_example =
    view-answers plain_buf counting requests one_order other_order 34 (omega arith)
      (Quot.sound orders-Alike) one_order-Inv other_order-Inv

-- A client is told the first address; before it binds a port there, the other client gets the second.
abbrev later_world : World ℕ
later_world = record { service = record given.world.service { network = one_order }; seed = 34 }

unknown_second : address_for assigned second_passcode ≡ none
unfolding Network.new Network.expire Network.forget HashMap.new HashMap.get HashMap.insert
    HashMap.remove Passcode-discrete record_assignment ℕ_discrete
unknown_second = refl

one_order-keeps :
    (p : Passcode) (address : ℕ)
    → address_for assigned p ≡ some address
    → address_for one_order p ≡ some address
unfolding Network.new Network.expire Network.forget HashMap.new HashMap.insert HashMap.remove
    record_assignment
one_order-keeps p address e = elim (Passcode-discrete p second_passcode) [
  | yes q ↦
      let there : address_for assigned second_passcode ≡ some address =
        ap (address_for assigned) (sym q) ∙ e in
      cc (unknown_second, there)
  | no n ↦
      get-insert Passcode-discrete (Network.expire 6 assigned).by_passcode second_passcode p
        second_address
      ∙ if_neg (Passcode-discrete p second_passcode) n (some second_address)
          (address_for (Network.expire 6 assigned) p)
      ∙ e
]

meanwhile : Meanwhile 6 world.service.network given.world.service.network one_order
unfolding Network.new Network.expire Network.forget HashMap.new HashMap.get HashMap.insert
    HashMap.remove record_assignment lwproxy.Service.new
meanwhile = record {
  consistent = one_order-Inv;
  kept = one_order-keeps;
  unused = λ address port e. refl;
}

handle_command-IsLinked_example :
    IsLinked counting (meets 2) 1 (codes "30000") 30000 later_world given
unfolding lwproxy.Text.parse_u16
handle_command-IsLinked_example =
    handle_command-IsLinked counting (meets 0) (meets 2) world later_world
      (Reach-IsLeased world-Reach).consistent 1 (codes "30000") 30000 refl (omega arith)
      (omega arith) given newaddr_runs meanwhile
