-- ===== src/Lease.antt =====
-- src/service/lease.rs, and the leases of src/service/net/network.rs, src/service/dnsproxy.rs and
-- src/service/connectproxy.rs: what stands behind the trait object of a `ProxyLease` is one of these.
pub mod Sends
use lwproxy.Base.{ℕ, Bool, List, [], ◌∷◌, ◌++◌, Bytes, if◌then◌else◌, Option}
use lwproxy.Result.{Result, ok, err, panic, ◌>>=◌, channel_closed}
use lwproxy.Net.{SocketAddr}
use lwproxy.Wire.{Buf}
use lwproxy.Translate.{Sender}
use lwproxy.Network.{NetworkState, BindHandler, Sent}
use lwproxy.Network
use lwproxy.Dns
use lwproxy.Connect
use lwproxy.Connect.{Event, Effect, Turn, goes_on, ends, to_client}

-- `DNSProxyLease`, `ConnectProxyLease`: the channel to the task.
pub record ServiceLease : Type 0 where
  pub transmit : Sender

pub data Lease : Type 0 where
  port_lease : BindHandler → Lease
  dns_lease connect_lease : ServiceLease → Lease

pub data Delivery : Type 0 where
  by_network : List Sent → Delivery
  to_task : Sender → Bytes → Delivery

-- Whether the task still listens on a channel is an argument.
abbrev pub send_to_task : ServiceLease → Bytes → Bool → Result Delivery
send_to_task l bytes listens = if listens then ok (to_task l.transmit bytes) else err channel_closed

unfoldable pub send : Buf → NetworkState → Lease → Bytes → Bool → Result Delivery
send buf st (port_lease h) bytes listens = do
  sent ← Network.send buf st h bytes listens
  ok (by_network sent)
send buf st (dns_lease l) bytes listens = send_to_task l bytes listens
send buf st (connect_lease l) bytes listens = send_to_task l bytes listens

-- Also what dropping a lease does.
unfoldable pub close : NetworkState → ℕ → Lease → NetworkState
close st now (port_lease h) = Network.close st now h
close st now (dns_lease l) = st
close st now (connect_lease l) = st

unfoldable pub is_live : Lease → Bool → Bool
is_live (port_lease h) listens = Network.is_live h
is_live (dns_lease l) listens = listens
is_live (connect_lease l) listens = listens

-- The tasks behind the leases on services: after an error an empty message wakes the client.
abbrev pub wake : List Bytes × Result (Unit {0}) → List Bytes
wake (sent, ok u) = sent
wake (sent, err e) = sent ++ ([] ∷ [])
wake (sent, panic) = sent

abbrev pub wake_client : Turn × List Effect → List Effect
wake_client (goes_on t, effects) = effects
wake_client (ends (ok u), effects) = effects
wake_client (ends (err e), effects) = effects ++ (to_client [] ∷ [])
wake_client (ends panic, effects) = effects

unfoldable pub dns_task :
    Buf → (Bytes → Option (List SocketAddr)) → List (Bytes × Bool) → List Bytes
dns_task buf lookup_host queries = wake (Dns.run buf lookup_host queries)

unfoldable pub connect_task : Buf → List Bytes → List Event → List Effect
connect_task buf allowed_hosts events =
    wake_client (Connect.run buf allowed_hosts Connect.start events)
