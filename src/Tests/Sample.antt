-- ===== src/Tests/Sample.antt =====
-- A generator that counts, and the tables after one client asked for an address and bound a port.
use lwproxy.Base.{ℕ, ◌+◌, ◌%◌, ◌^◌, ◌<◌, ◌≡◌, refl, arith, some, ℕ_discrete}
use lwproxy.Result.{ok}
use lwproxy.Code
use lwproxy.Code.{Rng, Passcode, codes, Passcode-discrete}
use lwproxy.Code.Addresses.{address_of}
use lwproxy.HashMap
use lwproxy.Wire.{be_bytes, from_be_from}
use lwproxy.Translate.{translator}
use lwproxy.Network
use lwproxy.Network.{NetworkState, Bound, assign, bind, record_assignment, RouteKey-discrete}

pub counting-lt : (s : ℕ) → (s + 300) % 2 ^ 64 < 2 ^ 64
counting-lt s = omega arith

pub counting_range-lt : (n s : ℕ) → 0 < n → s % n < n
counting_range-lt n s h = omega arith

abbrev pub counting : Rng ℕ
counting = record {
  random = λ s. ((s + 300) % 2 ^ 64, s + 1);
  random_range = λ n s. (s % n, s + 1);
  random-lt = counting-lt;
  random_range-lt = counting_range-lt;
}

abbrev pub first_address : ℕ
first_address = address_of 300

abbrev pub first_passcode : Passcode
first_passcode = record { code = codes "BCDEFGHIJKLMNOPQ" }

abbrev pub assigned : NetworkState
assigned = record_assignment 7 first_address first_passcode (Network.expire 6 Network.new)

pub assign_runs :
    assign counting 1 1 6 7 Network.new 0 ≡ ok (some (first_address, first_passcode, assigned, 17))
unfolding assign Network.assign_loop Network.new Network.expire Network.forget Code.new
    Code.random_address Code.random_code HashMap.new HashMap.get HashMap.insert HashMap.remove
    Passcode-discrete from_be_from be_bytes
assign_runs = refl

-- The client binds port 30000, and then holds the lease.
abbrev pub bound : Bound
bound = record {
  network = record {
    by_address =
        HashMap.insert ℕ_discrete assigned.by_address first_address
          (record { passcode = first_passcode; binds = 1; touched = 8 });
    by_passcode = assigned.by_passcode;
    routes = HashMap.insert RouteKey-discrete assigned.routes (first_address, 30000) 1;
  };
  handler = record { key = (first_address, 30000); egress = 2 };
  task = translator (first_address, 30000) 2 1;
}

pub bind_runs : bind assigned 8 first_passcode 30000 1 2 ≡ ok bound
unfolding bind record_assignment Network.new Network.expire Network.forget HashMap.new HashMap.get
    HashMap.insert HashMap.remove Passcode-discrete RouteKey-discrete ℕ_discrete translator
bind_runs = refl
