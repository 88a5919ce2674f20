-- ===== src/Service/Routes.antt =====
-- Where PROXY leads, and what the leases on services do.
use mathlib.Core.Logic.{if_pos, if_neg}
use lwproxy.Base.{ℕ, ite, ◌∙◌, ◌≡◌, ◌≢◌, ◌⊎◌, inl, inr}
use lwproxy.Result.{Result, ok, err, no_such_service}
use lwproxy.Net.{v6, SocketAddr, SocketAddr-discrete}
use lwproxy.Translate.{Sender}
use lwproxy.Lease.{Lease, dns_lease, connect_lease}
use lwproxy.Service.{
  Started, connecting, resolver, route, connect_proxy, dns_proxy, connect_into_lease,
  dns_into_lease,
}

-- fd00::1, and a port there.
abbrev pub service_at : ℕ → SocketAddr
service_at port = record { ip = v6 0xfd000000000000000000000000000001; port = port }

-- Which lease an address gives: CONNECT on port 8080, the resolver on port 53.
abbrev pub RouteEnds : SocketAddr → Sender → Sender → Result (Lease × Started) → Type 0
RouteEnds addr relay transmit result =
    ((addr ≡ service_at 8080)
      × (result ≡ ok (connect_lease (record { transmit = transmit }), connecting relay transmit)))
    ⊎ (((addr ≡ service_at 53)
          × (result ≡ ok (dns_lease (record { transmit = transmit }), resolver relay transmit)))
        ⊎ ((addr ≢ service_at 8080) × (addr ≢ service_at 53) × (result ≡ err no_such_service)))

-- PROXY leads to the CONNECT proxy exactly at fd00::1 with port 8080, to the resolver exactly at
-- fd00::1 with port 53, with the lease and the task of that service, and is refused at any other
-- address.
pub route-RouteEnds :
    (addr : SocketAddr) (relay transmit : Sender)
    → RouteEnds addr relay transmit (route addr relay transmit)
unfolding route connect_into_lease dns_into_lease
route-RouteEnds addr relay transmit =
    let at_connect = SocketAddr-discrete addr connect_proxy in
    let at_dns = SocketAddr-discrete addr dns_proxy in
    let to_connect : Result (Lease × Started) =
      ok (connect_lease (record { transmit = transmit }), connecting relay transmit) in
    let to_dns : Result (Lease × Started) =
      ok (dns_lease (record { transmit = transmit }), resolver relay transmit) in
    let refused : Result (Lease × Started) = err no_such_service in
    let otherwise : Result (Lease × Started) = ite at_dns to_dns refused in
    elim (SocketAddr-discrete addr connect_proxy) [
      | yes p ↦ inl (p, if_pos at_connect p to_connect otherwise)
      | no n ↦ elim (SocketAddr-discrete addr dns_proxy) [
        | yes p ↦
            inr (inl (p, if_neg at_connect n to_connect otherwise ∙ if_pos at_dns p to_dns refused))
        | no m ↦
            inr (
              inr (n, m, if_neg at_connect n to_connect otherwise ∙ if_neg at_dns m to_dns refused))
      ]
    ]
