-- ===== src/Tests/ListenTests.antt =====
-- A listener that is started, meets connections, is stopped and meets one more before its loop is over.
use lwproxy.Base.{ℕ, [], ◌∷◌, none, some, true, false}
use lwproxy.Net.{SocketAddr, v4}
use lwproxy.Endpoint.{Loop, socket_loop, SocketListener, new_socket, socket, Place}
use lwproxy.Proxy
use lwproxy.Proxy.{Proxy}
use lwproxy.Listen.{accepted, Server}

abbrev near : SocketAddr
near = record { ip = v4 2130706433; port = 4000 }

abbrev listening : SocketListener
listening = record (new_socket near) { runner = some (record { stop = false; join = none }) }

abbrev stopped : SocketListener
stopped = record (new_socket near) { runner = some (record { stop = true; join = none }) }

abbrev proxied : Proxy ℕ
proxied =
    accepted (socket_loop none) (some near) 2 (
      accepted (socket_loop none) none 1
        (accepted (socket_loop none) (some near) 0 (Proxy.start 0)))

abbrev served : Server ℕ
served = record { proxy = proxied; places = record { listener = socket stopped; loop = none } ∷ [] }
