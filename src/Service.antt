-- ===== src/Service.antt =====
-- src/service/service.rs and src/service/client.rs: the clients that are connected, and the services
-- that PROXY reaches. The operations hold the lock of the service throughout.
pub mod Clients
pub mod Routes
pub mod Binds
use lwproxy.Base.{ite, ℕ, ◌+◌, ◌%◌, ◌^◌, ◌*◌, Bool, true, false, Option, none, some, ℕ_discrete}
use lwproxy.Result.{Result, ok, err, panic, ◌>>=◌, unwrap, no_such_service}
use lwproxy.HashMap
use lwproxy.HashMap.{HashMap}
use lwproxy.Net.{IpAddr, v6, SocketAddr, SocketAddr-discrete}
use lwproxy.Code.{Rng, Passcode, proxy_address}
use lwproxy.Translate.{Sender, Translator}
use lwproxy.Network
use lwproxy.Network.{NetworkState}
use lwproxy.Lease.{Lease, port_lease, dns_lease, connect_lease}

abbrev pub connect_proxy : SocketAddr
connect_proxy = record { ip = v6 proxy_address; port = 8080 }

abbrev pub dns_proxy : SocketAddr
dns_proxy = record { ip = v6 proxy_address; port = 53 }

pub record ProxyClient : Type 0 where
  pub id : ℕ
  pub remote_addr : SocketAddr

-- A handle shares its client.
pub record ProxyClientHandle : Type 0 where
  pub id : ℕ
  pub client : ProxyClient

abbrev pub into_handle : ProxyClient → ProxyClientHandle
into_handle c = record { id = c.id; client = c }

-- With the counter of client ids, which the source keeps in a static.
pub record ProxyService : Type 0 where
  pub counter : ℕ
  pub clients : HashMap ℕ ProxyClientHandle
  pub network : NetworkState

unfoldable pub new : ProxyService
new = record { counter = 1; clients = HashMap.new; network = Network.new }

-- The client, and the counter behind it: `fetch_add` wraps.
abbrev pub next_client : ℕ → SocketAddr → ProxyClient × ℕ
next_client counter remote_addr =
    (record { id = counter; remote_addr = remote_addr }, (counter + 1) % 2 ^ 64)

unfoldable pub new_client : ProxyService → SocketAddr → ProxyClientHandle × ProxyService
new_client s remote_addr =
    let (client, counter) = next_client s.counter remote_addr in
    let handle = into_handle client in
    (
      handle,
      record s {
        counter = counter;
        clients = HashMap.insert ℕ_discrete s.clients handle.id handle;
      },
    )

unfoldable pub remove_client : ProxyService → ProxyClientHandle → Result ProxyService
remove_client s client = elim (HashMap.get ℕ_discrete s.clients client.id) [
  | none ↦ panic
  | some _ ↦ ok (record s { clients = HashMap.remove ℕ_discrete s.clients client.id })
]

-- The tasks that the leases start: a translation task, or a service with the client's relay and the
-- channel that it reads.
pub data Started : Type 0 where
  translation : Translator → Started
  resolver connecting : Sender → Sender → Started

-- `ConnectProxy` and `DNSProxy` before they run.
pub record ConnectProxy : Type 0 where
  pub relay_tx : Option Sender

pub record DnsProxy : Type 0 where
  pub relay_tx : Option Sender

abbrev pub new_connect : Sender → ConnectProxy
new_connect relay = record { relay_tx = some relay }

abbrev pub new_dns : Sender → DnsProxy
new_dns relay = record { relay_tx = some relay }

-- `ConnectProxy::into_lease`, with the channel to the task that is spawned. What the task does is
-- `connect_task` of Lease.
unfoldable pub connect_into_lease : ConnectProxy → Sender → Result (Lease × Started)
connect_into_lease proxy transmit = do
  relay ← unwrap proxy.relay_tx
  ok (connect_lease (record { transmit = transmit }), connecting relay transmit)

-- `DNSProxy::into_lease`; the task is `dns_task` of Lease.
unfoldable pub dns_into_lease : DnsProxy → Sender → Result (Lease × Started)
dns_into_lease proxy transmit = do
  relay ← unwrap proxy.relay_tx
  ok (dns_lease (record { transmit = transmit }), resolver relay transmit)

-- The channel to the task that is started is an argument.
unfoldable pub route : SocketAddr → Sender → Sender → Result (Lease × Started)
route addr relay transmit =
    ite (SocketAddr-discrete addr connect_proxy) (connect_into_lease (new_connect relay) transmit) (
      ite (SocketAddr-discrete addr dns_proxy) (dns_into_lease (new_dns relay) transmit)
        (err no_such_service))

-- The service with the tables that an assignment leaves.
abbrev pub with_network :
    {S : Type 0}
    → ProxyService
    → Result (Option (ℕ × Passcode × NetworkState × S))
    → Result (Option (ℕ × Passcode × ProxyService × S))
with_network s (ok (some (address, passcode, network, seed))) =
    ok (some (address, passcode, record s { network = network }, seed))
with_network s (ok none) = ok none
with_network s (err e) = err e
with_network s panic = panic

-- `ProxyServiceHandle::assign`
unfoldable pub assign :
    {S : Type 0}
    → Rng S
    → ℕ
    → ℕ
    → ℕ
    → ℕ
    → ProxyService
    → S
    → Result (Option (ℕ × Passcode × ProxyService × S))
assign rng fuel tries now later s seed =
    with_network s (Network.assign rng fuel tries now later s.network seed)

-- `ProxyServiceHandle::bind`
unfoldable pub bind :
    ProxyService → ℕ → Passcode → ℕ → Sender → Sender → Result (Lease × Started × ProxyService)
bind s now passcode port relay egress = do
  bound ← Network.bind s.network now passcode port relay egress
  ok (port_lease bound.handler, translation bound.task, record s { network = bound.network })
