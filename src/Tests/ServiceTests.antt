-- ===== src/Tests/ServiceTests.antt =====
-- The service: where a client is led.
use lwproxy.Base.{ℕ, ◌+◌, ◌<◌, ◌^◌, ◌≡◌, refl, [], ◌∷◌, ◌++◌, arith}
use lwproxy.Result.{ok}
use lwproxy.Net.{v4, SocketAddr}
use lwproxy.Lease.{connect_lease}
use lwproxy.Service.{connecting, route, connect_proxy}
use lwproxy.Service.Routes.{RouteEnds, route-RouteEnds}

abbrev remote : SocketAddr
remote = record { ip = v4 0x0a000001; port = 4000 }

route_runs : route connect_proxy 8 9 ≡ ok (connect_lease (record { transmit = 9 }), connecting 8 9)
unfolding route lwproxy.Service.connect_into_lease lwproxy.Net.SocketAddr-discrete
    lwproxy.Net.IpAddr-discrete lwproxy.Base.ℕ_discrete
route_runs = refl

route-RouteEnds_example : RouteEnds remote 8 9 (route remote 8 9)
route-RouteEnds_example = route-RouteEnds remote 8 9
