-- ===== src/Network.antt =====
-- src/service/net/network.rs: the private network that every client of the proxy shares. `Instant`s
-- are numbers of nanoseconds; each reading of the clock is an argument. The channels that a call
-- makes are arguments too. `HashMap::get_mut` is a `get` and an `insert` of the changed value.
pub mod Inv
pub mod Expire
pub mod Assign
pub mod Ports
pub mod Bind
pub mod Unbind
pub mod Leases
pub mod Bounds
pub mod Sending
pub mod Views
pub mod Alike
pub mod Order
use lwproxy.Base.{
  ℕ, zero, suc, ◌+◌, ◌-◌, ◌*◌, ◌%◌, ◌^◌, Bool, true, false, not, ◌&&◌, ◌||◌, List, [], ◌∷◌, map,
  Option, none, some, leb, ◌==◌, if◌then◌else◌, keep, Bytes, ℕ_discrete,
}
use lwproxy.Result.{
  Result, ok, err, ◌>>=◌, ◌>>◌, ensure, context, relabel, bind_port_zero, unknown_passcode,
  port_already_bound, assignment_missing, bad_frame_from_client, channel_closed,
}
use lwproxy.HashMap
use lwproxy.HashMap.{HashMap}
use lwproxy.Net.{IpAddr, v4, v6, SocketAddr}
use lwproxy.Wire.{Buf}
use lwproxy.Frame
use lwproxy.Frame.{encode, decode, peer}
use lwproxy.Code
use lwproxy.Code.{Rng, Passcode, Passcode-discrete, is_network_address, random_address}
use lwproxy.Translate.{Sender, RouteKey, Translator, translator}

-- 24 hours.
abbrev pub assignment_ttl : ℕ
assignment_ttl = 24 * 60 * 60 * 10 ^ 9

pub record Assignment : Type 0 where
  pub passcode : Passcode
  pub binds : ℕ
  pub touched : ℕ

unfoldable pub RouteKey-discrete : Discrete RouteKey
RouteKey-discrete = hlevel ℕ_discrete

pub record NetworkState : Type 0 where
  pub by_address : HashMap ℕ Assignment
  pub by_passcode : HashMap Passcode ℕ
  pub routes : HashMap RouteKey Sender

-- Reads of the three tables.
abbrev pub assignment_of : NetworkState → ℕ → Option Assignment
assignment_of st = HashMap.get ℕ_discrete st.by_address

abbrev pub address_for : NetworkState → Passcode → Option ℕ
address_for st = HashMap.get Passcode-discrete st.by_passcode

abbrev pub route : NetworkState → RouteKey → Option Sender
route st = HashMap.get RouteKey-discrete st.routes

unfoldable pub new : NetworkState
new = record { by_address = HashMap.new; by_passcode = HashMap.new; routes = HashMap.new }

-- `now.duration_since(touched)` is zero if the clock went back.
abbrev pub is_stale : ℕ → ℕ × Assignment → Bool
is_stale now (address, a) = a.binds == 0 && leb assignment_ttl (now - a.touched)

abbrev pub stale : ℕ → NetworkState → List (ℕ × Passcode)
stale now st = map (λ e. (e.0, e.1.passcode)) (keep (is_stale now) st.by_address.entries)

-- The loop of `expire` over the stale assignments.
unfoldable pub forget : List (ℕ × Passcode) → NetworkState → NetworkState
forget [] st = st
forget ((address, passcode) ∷ rest) st = forget rest (record st {
  by_address = HashMap.remove ℕ_discrete st.by_address address;
  by_passcode = HashMap.remove Passcode-discrete st.by_passcode passcode;
})

unfoldable pub expire : ℕ → NetworkState → NetworkState
expire now st = forget (stale now st) st

unfoldable pub record_assignment : ℕ → ℕ → Passcode → NetworkState → NetworkState
record_assignment now address passcode st = record st {
  by_address =
      HashMap.insert ℕ_discrete st.by_address address
        (record { passcode = passcode; binds = 0; touched = now });
  by_passcode = HashMap.insert Passcode-discrete st.by_passcode passcode address;
}

abbrev pub is_taken : NetworkState → ℕ → Passcode → Bool
is_taken st address passcode =
    HashMap.contains_key ℕ_discrete st.by_address address
    || HashMap.contains_key Passcode-discrete st.by_passcode passcode

module _ {S : Type 0} (rng : Rng S) where
  -- The loop of `assign`, in at most `fuel` rounds; a round draws an address in at most `tries`
  -- draws. `ok none` when these run out.
  unfoldable pub assign_loop :
      ℕ → ℕ → ℕ → NetworkState → S → Result (Option (ℕ × Passcode × NetworkState × S))
  assign_loop zero tries now st s = ok none
  assign_loop (suc fuel) tries now st s = elim (random_address rng tries s) [
    | none ↦ ok none
    | some (address, s') ↦ do
      (passcode, s'') ← Code.new rng s'
      let again = assign_loop fuel tries now st s''
      if is_taken st address passcode
          then again
          else ok (some (address, passcode, record_assignment now address passcode st, s''))
  ]

  -- `expire` reads the clock first.
  unfoldable pub assign :
      ℕ → ℕ → ℕ → ℕ → NetworkState → S → Result (Option (ℕ × Passcode × NetworkState × S))
  assign fuel tries now later st s = assign_loop fuel tries later (expire now st) s

-- A lease on a port.
pub record BindHandler : Type 0 where
  pub key : RouteKey
  pub egress : Sender

pub record Bound : Type 0 where
  pub network : NetworkState
  pub handler : BindHandler
  -- The task that the call starts.
  pub task : Translator

unfoldable pub bind : NetworkState → ℕ → Passcode → ℕ → Sender → Sender → Result Bound
bind st now passcode port relay egress = do
  ensure (not (port == 0)) bind_port_zero
  address ← context (HashMap.get Passcode-discrete st.by_passcode passcode) unknown_passcode
  let key : RouteKey = (address, port)
  ensure (not (HashMap.contains_key RouteKey-discrete st.routes key)) port_already_bound
  assignment ← context (HashMap.get ℕ_discrete st.by_address address) assignment_missing
  ok (record {
    network = record st {
      by_address =
          HashMap.insert ℕ_discrete st.by_address address
            (record assignment { binds = (assignment.binds + 1) % 2 ^ 64; touched = now });
      routes = HashMap.insert RouteKey-discrete st.routes key relay;
    };
    handler = record { key = key; egress = egress };
    task = translator key egress relay;
  })

-- The reading of the clock is used only if the address is still assigned.
unfoldable pub unbind : NetworkState → ℕ → RouteKey → NetworkState
unbind st now key = elim (HashMap.get RouteKey-discrete st.routes key) [
  | none ↦ st
  | some _ ↦
      let st' = record st { routes = HashMap.remove RouteKey-discrete st.routes key } in
      elim (HashMap.get ℕ_discrete st.by_address key.0) [
        | none ↦ st'
        | some a ↦ record st' {
          by_address =
              HashMap.insert ℕ_discrete st.by_address key.0
                (record a { binds = a.binds - 1; touched = now });
        }
      ]
]

-- What a lease on a port does with a datagram: hands it to another client's relay, or to the
-- translation task.
pub data Sent : Type 0 where
  to_relay : Sender → Bytes → Sent
  to_egress : Sender → SocketAddr → Bytes → Sent

module _ (buf : Buf) where
  -- A relay that is gone is no error, so its answer is not asked for.
  unfoldable pub deliver : NetworkState → RouteKey → RouteKey → Bytes → Result (List Sent)
  deliver st from to content = do
    out ← encode buf (Frame.new from.0 from.1 content)
    elim (HashMap.get RouteKey-discrete st.routes to) [
      | none ↦ ok []
      | some relay ↦ ok (to_relay relay out ∷ [])
    ]

  -- To a peer of the internet; the flag says whether the translation task still listens.
  abbrev pub send_out : BindHandler → SocketAddr → Bytes → Bool → Result (List Sent)
  send_out h to content listens =
      if listens then ok (to_egress h.egress to content ∷ []) else err channel_closed

  unfoldable pub send : NetworkState → BindHandler → Bytes → Bool → Result (List Sent)
  unfolding deliver
  send st h raw listens = do
    frame ← relabel (decode buf raw) bad_frame_from_client
    let to = peer frame
    elim to.ip [
      | v4 a ↦ send_out h to frame.content listens
      | v6 a ↦
          if is_network_address a
          then deliver st h.key (a, to.port) frame.content
          else send_out h to frame.content listens
    ]

-- Dropping a lease closes it.
abbrev pub close : NetworkState → ℕ → BindHandler → NetworkState
close st now h = unbind st now h.key

abbrev pub is_live : BindHandler → Bool
is_live h = true
