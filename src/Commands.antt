-- ===== src/Commands.antt =====
-- src/service/commands.rs: the commands that a client sends before it has a lease. The readings of the
-- clock, the fuel of `assign` and the channel that a lease may need are the circumstances of one
-- command. An error ends the client, so what it leaves of the relay is not returned.
pub mod Cases
pub mod Ends
pub mod Refines
pub mod Texts
pub mod Linking
use lwproxy.Base.{
  ℕ, Bool, true, false, List, [], ◌∷◌, ◌++◌, Option, none, some, leb, if◌then◌else◌, length, take,
  Bytes,
}
use lwproxy.Result.{
  Result, ok, err, panic, ◌>>=◌, ◌>>◌, ensure, context, relabel, command_non_ascii,
  command_too_long, command_empty, command_unrecognized, proxy_bad_args, proxy_bad_protocol,
  proxy_bad_transport, proxy_udp, proxy_bad_address, proxy_family_mismatch, proxy_bad_port,
  proxy_no_relay, newaddr_bad_args, bind_no_relay, bind_bad_args, bind_bad_passcode, bind_not_udp,
  bind_bad_port,
}
use lwproxy.Text.{is_ascii, text_eq, split_whitespace, strip_prefix, parse_u16}
use lwproxy.IpText.{parse_ip, show_ipv6}
use lwproxy.Net.{SocketAddr, is_ipv6}
use lwproxy.Code
use lwproxy.Code.{Rng, Passcode, codes, to_text}
use lwproxy.Translate.{Sender}
use lwproxy.Lease.{Lease}
use lwproxy.Service
use lwproxy.Service.{ProxyService, Started}

abbrev pub max_command_size : ℕ
max_command_size = 4096

-- What a command meets.
pub record Circumstances : Type 0 where
  pub now : ℕ
  pub later : ℕ
  pub fuel : ℕ
  pub tries : ℕ
  pub channel : Sender

pub record World (S : Type 0) : Type 0 where
  pub service : ProxyService
  pub seed : S

pub record CommandResult : Type 0 where
  pub response : Bytes
  pub new_lease : Option Lease
  pub relay_udp : Bool

-- Also what is left of the relay, the world, and the task that was started.
pub record Outcome (S : Type 0) : Type 0 where
  pub result : CommandResult
  pub relay : Option Sender
  pub world : World S
  pub started : Option Started

abbrev pub answer : Bytes → CommandResult
answer response = record { response = response; new_lease = none; relay_udp = false }

abbrev pub want_ipv6 : Bytes → Result Bool
want_ipv6 protocol =
    if text_eq protocol (codes "IPV4")
    then ok false
    else if text_eq protocol (codes "IPV6")
    then ok true
    else err proxy_bad_protocol

abbrev pub check_transport : Bytes → Result (Unit {0})
check_transport transport =
    if text_eq transport (codes "TCP")
    then ok tt
    else if text_eq transport (codes "UDP")
    then err proxy_udp
    else err proxy_bad_transport

abbrev pub bool_eq : Bool → Bool → Bool
bool_eq true b = b
bool_eq false true = false
bool_eq false false = true

-- The address that the arguments of PROXY name.
unfoldable pub proxy_target : List Bytes → Result SocketAddr
proxy_target (protocol ∷ transport ∷ address ∷ port_text ∷ []) = do
  v6_wanted ← want_ipv6 protocol
  check_transport transport
  ip ← context (parse_ip address) proxy_bad_address
  ensure (bool_eq (is_ipv6 ip) v6_wanted) proxy_family_mismatch
  port ← context (parse_u16 port_text) proxy_bad_port
  ok (record { ip = ip; port = port })
proxy_target _ = err proxy_bad_args

-- The passcode and port that the arguments of BIND name.
unfoldable pub bind_target : List Bytes → Result (Passcode × ℕ)
bind_target (code ∷ transport ∷ port_text ∷ []) = do
  passcode ← relabel (Code.parse code) bind_bad_passcode
  ensure (text_eq transport (codes "UDP")) bind_not_udp
  port ← context (parse_u16 port_text) bind_bad_port
  ok (passcode, port)
bind_target _ = err bind_bad_args

module _ {S : Type 0} where
  abbrev pub proxied : World S → Lease → Started → Outcome S
  proxied w lease task = record {
    result = record { response = codes "PROXY OK"; new_lease = some lease; relay_udp = false };
    relay = none;
    world = w;
    started = some task;
  }

  unfoldable pub proxy : Circumstances → World S → Option Sender → List Bytes → Result (Outcome S)
  unfolding proxy_target
  proxy c w relay_tx args = do
    addr ← proxy_target args
    relay ← context relay_tx proxy_no_relay
    (lease, task) ← Service.route addr relay c.channel
    ok (proxied w lease task)

  -- What a bind is answered with. After a refusal the relay stays.
  abbrev pub bind_reply :
      World S → Option Sender → Result (Lease × Started × ProxyService) → Result (Outcome S)
  bind_reply w relay_tx (ok (lease, task, service)) = ok (record {
    result = record { response = codes "BIND OK"; new_lease = some lease; relay_udp = true };
    relay = none;
    world = record w { service = service };
    started = some task;
  })
  bind_reply w relay_tx (err e) = ok (record {
    result = answer (codes "BIND FAILED");
    relay = relay_tx;
    world = w;
    started = none;
  })
  bind_reply w relay_tx panic = panic

  unfoldable pub bind : Circumstances → World S → Option Sender → List Bytes → Result (Outcome S)
  unfolding bind_target
  bind c w relay_tx args = do
    relay ← context relay_tx bind_no_relay
    (passcode, port) ← bind_target args
    bind_reply w relay_tx (Service.bind w.service c.now passcode port relay c.channel)

abbrev pub addr_response : ℕ → Passcode → Bytes
addr_response address passcode = codes "ADDR " ++ (show_ipv6 address ++ (b' ' ∷ to_text passcode))

module _ {S : Type 0} where
  -- `ok none` when the fuel of `assign` runs out.
  abbrev pub newaddr_reply :
      Option Sender
      → Result (Option (ℕ × Passcode × ProxyService × S))
      → Result (Option (Outcome S))
  newaddr_reply relay_tx (ok (some (address, passcode, service, seed))) = ok (
      some (record {
        result = answer (addr_response address passcode);
        relay = relay_tx;
        world = record { service = service; seed = seed };
        started = none;
      }))
  newaddr_reply relay_tx (ok none) = ok none
  newaddr_reply relay_tx (err e) = err e
  newaddr_reply relay_tx panic = panic

module _ {S : Type 0} (rng : Rng S) where
  unfoldable pub newaddr :
      Circumstances → World S → Option Sender → List Bytes → Result (Option (Outcome S))
  newaddr c w relay_tx [] =
      newaddr_reply relay_tx (Service.assign rng c.fuel c.tries c.now c.later w.service w.seed)
  newaddr c w relay_tx (arg ∷ args) = err newaddr_bad_args

  unfoldable pub dispatch :
      Circumstances → World S → Option Sender → List Bytes → Result (Option (Outcome S))
  unfolding proxy bind newaddr
  dispatch c w relay_tx [] = err command_empty
  dispatch c w relay_tx (verb ∷ args) =
      if text_eq verb (codes "PROXY")
      then (do o ← proxy c w relay_tx args; ok (some o))
      else if text_eq verb (codes "NEWADDR")
      then newaddr c w relay_tx args
      else if text_eq verb (codes "BIND")
      then (do o ← bind c w relay_tx args; ok (some o))
      else err command_unrecognized

  unfoldable pub handle_command :
      Circumstances → World S → Option Sender → Bytes → Result (Option (Outcome S))
  unfolding dispatch
  handle_command c w relay_tx raw = do
    ensure (is_ascii raw) command_non_ascii
    ensure (leb (length raw) 255) command_too_long
    elim (strip_prefix (codes "PING") raw) [
      | some payload ↦ ok (
          some (record {
            result = answer (codes "PONG" ++ payload);
            relay = relay_tx;
            world = w;
            started = none;
          }))
      | none ↦ dispatch c w relay_tx (take 6 (split_whitespace raw))
    ]
